-- ===== src/System/Tests.antt =====
-- The theorems on the payments at concrete inputs.
use banking_mobile_backend.Prelude.{
  ◌⊎◌, ◌≡◌, refl, some, none, [], ◌∷◌, ok, err, bad_request, find, true, ◌>>=◌, try_finally,
  try_catch, update_where, any,
}
use banking_mobile_backend.Payments.{Payment, completed, processing, clip}
use banking_mobile_backend.Payments.Services.{Services, Store, top_ups, ask, send_proof}
use banking_mobile_backend.Payments.Repository.{
  has_provider_id, get_payment_by_id, get_payment_by_provider_payment_id, acquire_payment_lock,
  release_payment_lock, merge_webhook_processing_result, update_payment, merged,
  update_payment_status, with_status,
}
use banking_mobile_backend.Payments.Topup.{
  build_topup_payload_from_request, build_topup_request_from_payment,
}
use banking_mobile_backend.Payments.Utils.{
  extract_clip_webhook_payment_id, map_clip_status_to_internal,
}
use banking_mobile_backend.Clip.{
  process_payment, ClientResponse, verify_payment_status, provider_request, record_and_respond,
  map_clip_status_before_webhook, map_to_client_response,
}
use banking_mobile_backend.Clip.Webhook.{
  handle_clip_webhook, handle_found, locked_webhook, confirm, settle, settle_completed, credit,
  has_completed_topup, settle_without_topup, top_up_and_record, ProcessResponse,
}
use banking_mobile_backend.Clip.Once.{handle_clip_webhook-credits, handle_clip_webhook-top_ups}
use banking_mobile_backend.Clip.Confirmed.{handle_clip_webhook-Sends, Sends, Reported}
use banking_mobile_backend.Clip.Repeated.{Webhooks, between, none_yet, handle_clip_webhook-once}
use banking_mobile_backend.Clip.Locks.{LeavesLock, handle_clip_webhook-locks}
use banking_mobile_backend.Clip.Submitted.{
  Submissions, process_payment-once, process_payment-IsSubmitted, verify_payment_status-IsSubmitted,
  HasRow, IsSubmitted,
}
use banking_mobile_backend.System.Fixtures.{
  submitted_payment, store, services, webhook, card_data, account,
}

abbrev settled : ProcessResponse
settled = record {
  provider_payment_id = "clip-1";
  payment_id = 1;
  status = completed;
  topup_triggered = true;
  topup_external_transaction_id = some "key-1";
}

abbrev after_webhook : Store
after_webhook = (handle_clip_webhook services webhook store).1

webhook_named : extract_clip_webhook_payment_id webhook ≡ some "clip-1"
unfolding extract_clip_webhook_payment_id
webhook_named = refl

webhook_run : handle_clip_webhook services webhook store ≡ (ok settled, after_webhook)
unfolding handle_clip_webhook ◌>>=◌ extract_clip_webhook_payment_id
    get_payment_by_provider_payment_id find handle_found acquire_payment_lock try_finally
    release_payment_lock locked_webhook confirm ask settle map_clip_status_to_internal
    settle_completed merge_webhook_processing_result update_payment credit has_completed_topup
    settle_without_topup top_up_and_record merged send_proof build_topup_payload_from_request
    build_topup_request_from_payment try_catch update_where any
webhook_run = refl

webhook_found : find (has_provider_id clip "clip-1") store.payments ≡ some submitted_payment
unfolding find
webhook_found = refl

-- A second webhook, and then another request that leaves the payment's row alone.
abbrev after_two : Store
after_two = record (handle_clip_webhook services webhook after_webhook).1 { next_id = 9 }

handle_clip_webhook-once_example :
    top_ups (handle_clip_webhook services webhook after_two).1.calls ≡ top_ups after_two.calls
handle_clip_webhook-once_example =
    handle_clip_webhook-once services services "clip-1" webhook webhook store after_two
      webhook_named webhook_named webhook_run refl
      (between after_two refl (Webhooks.webhook services webhook webhook_named none_yet))

handle_clip_webhook-credits_example :
    (p : Payment) × (find (has_provider_id clip "clip-1") after_webhook.payments ≡ some p)
    × (has_completed_topup p.response_payload ≡ true)
handle_clip_webhook-credits_example =
    handle_clip_webhook-credits services "clip-1" webhook store webhook_named webhook_run refl

handle_clip_webhook-Sends_example :
    Sends
      (Reported services "clip-1" [])
      submitted_payment
      account
      []
      (handle_clip_webhook services webhook store).1
handle_clip_webhook-Sends_example =
    handle_clip_webhook-Sends services "clip-1" webhook submitted_payment store webhook_named
      webhook_found

abbrev credited_payment : Payment
credited_payment =
    merged completed none none
      (some (record {
        status = completed;
        external_transaction_id = "key-1";
        amount = 950;
        balance_id = 7;
        source_customer_id = 9;
        response = none;
        note = none;
        error = none;
      }))
      submitted_payment

abbrev credited_store : Store
credited_store = record store { payments = credited_payment ∷ [] }

credited_found :
    find (has_provider_id clip "clip-1") credited_store.payments ≡ some credited_payment
unfolding find merged
credited_found = refl

is_credited : has_completed_topup credited_payment.response_payload ≡ true
unfolding has_completed_topup merged
is_credited = refl

handle_clip_webhook-top_ups_example :
    top_ups (handle_clip_webhook services webhook credited_store).1.calls ≡ []
handle_clip_webhook-top_ups_example =
    handle_clip_webhook-top_ups services "clip-1" webhook credited_payment credited_store
      webhook_named credited_found is_credited

-- The release runs on another session than the lock.
abbrev pooled : Services
pooled = record services { release_session = 2 }

handle_clip_webhook-locks_example :
    ((handle_clip_webhook pooled webhook store).1.locks ≡ store.locks)
    ⊎ LeavesLock pooled webhook store (handle_clip_webhook pooled webhook store).1
handle_clip_webhook-locks_example = handle_clip_webhook-locks pooled webhook store

abbrev processing_response : ClientResponse
processing_response = record {
  payment_id = "clip-3";
  amount = 1000;
  currency = "MXN";
  status = processing;
  status_message = "";
  receipt_no = "r-1";
  approved_at = none;
  card_type = "card";
  card = record { last_digits = "1111"; issuer = "bank" };
  pending_action = record { action_type = ""; url = "" };
}

abbrev after_process : Store
after_process = (process_payment services "url" 3 card_data store).1

process_run :
    process_payment services "url" 3 card_data store ≡ (ok processing_response, after_process)
unfolding process_payment ◌>>=◌ get_payment_by_id find update_payment_status update_payment
    with_status ask provider_request record_and_respond map_clip_status_before_webhook
    map_clip_status_to_internal map_to_client_response update_where any
process_run = refl

abbrev after_resubmission : Store
after_resubmission = (process_payment services "url" 3 card_data after_process).1

process_payment-once_example :
    process_payment services "url" 3 card_data after_resubmission
    ≡ (err (bad_request "Payment has already been processed"), after_resubmission)
process_payment-once_example =
    process_payment-once services services "url" "url" 3 card_data card_data store
      after_resubmission process_run (λ h. cc)
      (Submissions.submission services "url" card_data Submissions.none_yet)

process_payment-IsSubmitted_example : HasRow 3 (IsSubmitted processing_response) after_process
process_payment-IsSubmitted_example =
    process_payment-IsSubmitted services "url" 3 card_data store process_run

abbrev after_verify : Store
after_verify = (verify_payment_status services 1 store).1

verify_run : verify_payment_status services 1 store ≡ (ok processing_response, after_verify)
unfolding verify_payment_status ◌>>=◌ get_payment_by_id find update_payment_status update_payment
    with_status ask record_and_respond map_clip_status_before_webhook map_clip_status_to_internal
    map_to_client_response update_where any
verify_run = refl

verify_payment_status-IsSubmitted_example : HasRow 1 (IsSubmitted processing_response) after_verify
verify_payment_status-IsSubmitted_example =
    verify_payment_status-IsSubmitted services 1 store verify_run
