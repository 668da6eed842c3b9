-- ===== src/Clip/Webhook.antt =====
-- src/services/payment.service.ts, `handleClipWebhook`: the provider's webhook settles a payment and
-- credits the wallet, under a lock named by the payment's idempotency key.
use banking_mobile_backend.Prelude.{
  ℕ, String, Bool, true, false, Option, none, some, if◌then◌else◌, Error, bad_request, unauthorized,
  forbidden, not_found, conflict, unprocessable, internal_server, plain, type_error, database,
  Action, ◌>>=◌, ◌>>◌, pure, throw, gets, or_throw, lift, try_catch, try_finally,
}
use banking_mobile_backend.Payments.{
  Payment, PaymentStatus, completed, failed, is_completed, ProviderPayment, ClipWebhookPayload,
  ResponsePayload, TopupPayload, TopUpRequest, clip,
}
use banking_mobile_backend.Payments.Utils.{
  map_clip_status_to_internal, extract_clip_webhook_payment_id,
}
use banking_mobile_backend.Payments.Topup.{
  build_topup_request_from_payment, build_topup_payload_from_request,
}
use banking_mobile_backend.Payments.Repository.{
  get_payment_by_provider_payment_id, merge_webhook_processing_result, acquire_payment_lock,
  release_payment_lock,
}
use banking_mobile_backend.Payments.Services.{
  Store, Services, Account, Call, payment_ref, ask, send_proof,
}

pub record ProcessResponse : Type 0 where
  pub provider_payment_id : String
  pub payment_id : ℕ
  pub status : PaymentStatus
  pub topup_triggered : Bool
  pub topup_external_transaction_id : Option String

abbrev pub message_of : Error → String
message_of (bad_request m) = m
message_of (unauthorized m) = m
message_of (forbidden m) = m
message_of (not_found m) = m
message_of (conflict m) = m
message_of (unprocessable m) = m
message_of (internal_server m) = m
message_of (plain m) = m
message_of (type_error m) = m
message_of (database m) = m

abbrev topup_is_completed : Option TopupPayload → Bool
topup_is_completed none = false
topup_is_completed (some t) = is_completed t.status

unfoldable pub has_completed_topup : Option ResponsePayload → Bool
has_completed_topup none = false
has_completed_topup (some payload) = topup_is_completed payload.topup

module _ (env : Services) (provider_payment_id : String) (payload : ClipWebhookPayload) where
  -- The outcome `internalStatus !== COMPLETED`.
  unfoldable pub settle_without_topup :
      PaymentStatus → ProviderPayment → Payment → Account → Action Store ProcessResponse
  settle_without_topup status provider locked user = do
    merge_webhook_processing_result locked.id status (some provider) (some payload) none
    send_proof "link" user.email
    pure (record {
      provider_payment_id = provider_payment_id;
      payment_id = locked.id;
      status = status;
      topup_triggered = false;
      topup_external_transaction_id = none;
    })

  abbrev pub settled : Payment → Bool → ProcessResponse
  settled locked triggered = record {
    provider_payment_id = provider_payment_id;
    payment_id = locked.id;
    status = completed;
    topup_triggered = triggered;
    topup_external_transaction_id = some locked.idempotency_key;
  }

  -- The body of the inner `try`.
  unfoldable pub top_up_and_record :
      ProviderPayment → Payment → Account → TopUpRequest → Action Store ProcessResponse
  top_up_and_record provider locked user request = do
    response ← ask env.top_up Call.top_up request
    merge_webhook_processing_result locked.id completed (some provider) (some payload)
        (some (build_topup_payload_from_request request completed (some response) none none))
    send_proof "link" user.email
    ask env.notify Call.push (record {
      user_id = locked.user_id;
      kind = "clip_topup";
      reference = payment_ref locked.id;
    })
    pure (settled locked true)

  -- Its `catch`: a conflict is taken for a duplicate that went through; any other error is recorded
  -- and thrown again.
  unfoldable pub on_topup_error :
      ProviderPayment → Payment → TopUpRequest → Error → Action Store ProcessResponse
  on_topup_error provider locked request (conflict m) = do
    merge_webhook_processing_result locked.id completed (some provider) (some payload) (
        some (
          build_topup_payload_from_request request completed none
            (some "Topup conflict treated as idempotent duplicate") none))
    pure (settled locked false)
  on_topup_error provider locked request e = do
    merge_webhook_processing_result locked.id completed (some provider) (some payload)
        (some (build_topup_payload_from_request request failed none none (some (message_of e))))
    throw e

  unfoldable pub credit : ProviderPayment → Payment → Account → Action Store ProcessResponse
  credit provider locked user = do
    request ← lift (build_topup_request_from_payment locked user)
    try_catch (top_up_and_record provider locked user request)
        (on_topup_error provider locked request)

  unfoldable pub settle_completed :
      ProviderPayment → Payment → Account → Action Store ProcessResponse
  settle_completed provider locked user = do
    merge_webhook_processing_result locked.id completed (some provider) (some payload) none
    if has_completed_topup locked.response_payload
        then pure (settled locked false)
        else credit provider locked user

  unfoldable pub settle :
      PaymentStatus → ProviderPayment → Payment → Account → Action Store ProcessResponse
  settle PaymentStatus.completed provider locked user = settle_completed provider locked user
  settle status provider locked user = settle_without_topup status provider locked user

  -- The provider is asked for the payment, whatever status the webhook's body states. Reading the
  -- name of an absent customer is a `TypeError`.
  unfoldable pub confirm : Payment → Action Store ProcessResponse
  confirm locked = do
    user ← gets (λ s. s.accounts locked.user_id)
    provider ← ask env.payment_details Call.payment_details provider_payment_id
    or_throw provider.customer (type_error "customer is undefined")
    settle (map_clip_status_to_internal (some provider.status)) provider locked user

  -- What runs under the lock.
  unfoldable pub locked_webhook : Action Store ProcessResponse
  locked_webhook = do
    again ← get_payment_by_provider_payment_id clip provider_payment_id
    locked ← or_throw again (not_found "Payment not found for Clip webhook")
    confirm locked

  unfoldable pub handle_found : Payment → Action Store ProcessResponse
  handle_found db_payment = do
    acquired ← acquire_payment_lock env.acquire_session db_payment.idempotency_key
    if acquired
        then try_finally locked_webhook
            (release_payment_lock env.release_session db_payment.idempotency_key)
        else throw (conflict "Clip webhook is already being processed")

unfoldable pub handle_clip_webhook : Services → ClipWebhookPayload → Action Store ProcessResponse
handle_clip_webhook env payload = do
  key ←
      or_throw (extract_clip_webhook_payment_id payload)
        (bad_request "Clip webhook does not include a payment identifier")
  found ← get_payment_by_provider_payment_id clip key
  db_payment ← or_throw found (not_found "Payment not found for Clip webhook")
  handle_found env key payload db_payment
