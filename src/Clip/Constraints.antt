-- ===== src/Clip/Constraints.antt =====
-- The operations of the card payments keep the constraints of the `payments` table.
use banking_mobile_backend.Prelude.{ℕ, String, refl, Option, Error}
use banking_mobile_backend.Prelude.Keeps.{Keeps, Keeps-bind, Keeps-pure, keeps_rules}
use banking_mobile_backend.Payments.{
  Payment, PaymentStatus, ProviderPayment, ProviderRequest, ClipWebhookPayload, TopUpRequest,
  TopupPayload,
}
use banking_mobile_backend.Payments.Fees.{Number}
use banking_mobile_backend.Payments.Services.{Services, Account}
use banking_mobile_backend.Payments.Repository.{
  get_payment_by_id, with_status, merged, update_payment_status, get_payment_by_provider_payment_id,
  merge_webhook_processing_result,
}
use banking_mobile_backend.Payments.WellFormed.{
  IsWellFormed, KeepsKeys, update_payment-IsWellFormed, create_row-IsWellFormed,
}
use banking_mobile_backend.Payments.Effects.{
  ask-IsWellFormed, send_proof-IsWellFormed, acquire_payment_lock-IsWellFormed,
  release_payment_lock-IsWellFormed,
}
use banking_mobile_backend.Clip.{
  new_payment, PaymentCreateRequest, create_payment, ProcessPaymentRequest, record_and_respond,
  process_payment, verify_payment_status,
}
use banking_mobile_backend.Clip.Webhook.{
  top_up_and_record, on_topup_error, credit, settle_without_topup, settle_completed, settle,
  confirm, locked_webhook, handle_found, handle_clip_webhook,
}

with_status-KeepsKeys :
    (status : PaymentStatus) (key : Option String) (response : Option ProviderPayment)
    (request : Option ProviderRequest)
    → KeepsKeys (with_status status key response request)
unfolding with_status
with_status-KeepsKeys status key response request = record { id = λ p. refl; key = λ p. refl }

merged-KeepsKeys :
    (status : PaymentStatus) (provider : Option ProviderPayment)
    (webhook : Option ClipWebhookPayload) (topup : Option TopupPayload)
    → KeepsKeys (merged status provider webhook topup)
unfolding merged
merged-KeepsKeys status provider webhook topup = record { id = λ p. refl; key = λ p. refl }

update_payment_status-IsWellFormed :
    (id : ℕ) (status : PaymentStatus) (key : Option String) (response : Option ProviderPayment)
    (request : Option ProviderRequest)
    → Keeps IsWellFormed (update_payment_status id status key response request)
unfolding update_payment_status
update_payment_status-IsWellFormed id status key response request =
    update_payment-IsWellFormed id (with_status status key response request)
      (with_status-KeepsKeys status key response request)

pub merge-IsWellFormed :
    (id : ℕ) (status : PaymentStatus) (provider : Option ProviderPayment)
    (webhook : Option ClipWebhookPayload) (topup : Option TopupPayload)
    → Keeps IsWellFormed (merge_webhook_processing_result id status provider webhook topup)
unfolding merge_webhook_processing_result
merge-IsWellFormed id status provider webhook topup =
    update_payment-IsWellFormed id (merged status provider webhook topup)
      (merged-KeepsKeys status provider webhook topup)

ruleset table_rules = (
  keeps_rules, ask-IsWellFormed, send_proof-IsWellFormed, update_payment_status-IsWellFormed,
  merge-IsWellFormed,
)

-- Creating a payment keeps the constraints: ids, idempotency keys and provider ids stay unique.
pub create_payment-IsWellFormed :
    (n : Number) (fee_rate : n.Num) (user_id : ℕ) (request : PaymentCreateRequest n) (key : String)
    → Keeps IsWellFormed (create_payment n fee_rate user_id request key)
unfolding create_payment new_payment
create_payment-IsWellFormed n fee_rate user_id request key =
    Keeps-bind _ _ (create_row-IsWellFormed _ (λ id. refl)) (λ payment. Keeps-pure _)

module _ (env : Services) where
  record_and_respond-IsWellFormed :
      (id : ℕ) (payment : ProviderPayment) → Keeps IsWellFormed (record_and_respond env id payment)
  unfolding record_and_respond
  record_and_respond-IsWellFormed id payment = search table_rules

  pub process_payment-IsWellFormed :
      (url : String) (id : ℕ) (request : ProcessPaymentRequest)
      → Keeps IsWellFormed (process_payment env url id request)
  unfolding process_payment get_payment_by_id
  process_payment-IsWellFormed url id request =
      search (table_rules, record_and_respond-IsWellFormed) depth 20

  pub verify_payment_status-IsWellFormed :
      (id : ℕ) → Keeps IsWellFormed (verify_payment_status env id)
  unfolding verify_payment_status get_payment_by_id
  verify_payment_status-IsWellFormed id =
      search (table_rules, record_and_respond-IsWellFormed) depth 20

module _ (env : Services) (key : String) (payload : ClipWebhookPayload) where
  settle_without_topup-IsWellFormed :
      (status : PaymentStatus) (provider : ProviderPayment) (p : Payment) (user : Account)
      → Keeps IsWellFormed (settle_without_topup env key payload status provider p user)
  unfolding settle_without_topup
  settle_without_topup-IsWellFormed status provider p user = search table_rules

  on_topup_error-IsWellFormed :
      (provider : ProviderPayment) (p : Payment) (request : TopUpRequest) (e : Error)
      → Keeps IsWellFormed (on_topup_error env key payload provider p request e)
  unfolding on_topup_error
  on_topup_error-IsWellFormed provider p request (Error.conflict m) = search table_rules
  on_topup_error-IsWellFormed provider p request _ = search table_rules

  credit-IsWellFormed :
      (provider : ProviderPayment) (p : Payment) (user : Account)
      → Keeps IsWellFormed (credit env key payload provider p user)
  unfolding credit top_up_and_record
  credit-IsWellFormed provider p user = search (table_rules, on_topup_error-IsWellFormed) depth 9

  settle-IsWellFormed :
      (status : PaymentStatus) (provider : ProviderPayment) (p : Payment) (user : Account)
      → Keeps IsWellFormed (settle env key payload status provider p user)
  unfolding settle settle_completed
  settle-IsWellFormed PaymentStatus.completed provider p user =
      search (table_rules, credit-IsWellFormed)
  settle-IsWellFormed _ provider p user = search settle_without_topup-IsWellFormed

  handle_found-IsWellFormed : (p : Payment) → Keeps IsWellFormed (handle_found env key payload p)
  unfolding handle_found confirm locked_webhook get_payment_by_provider_payment_id
  handle_found-IsWellFormed p =
      search
        (
          table_rules, settle-IsWellFormed, acquire_payment_lock-IsWellFormed,
          release_payment_lock-IsWellFormed,
        )
        depth 20

-- The webhook keeps them too, on every outcome.
pub handle_clip_webhook-IsWellFormed :
    (env : Services) (payload : ClipWebhookPayload)
    → Keeps IsWellFormed (handle_clip_webhook env payload)
unfolding handle_clip_webhook get_payment_by_provider_payment_id
handle_clip_webhook-IsWellFormed env payload =
    search (keeps_rules, handle_found-IsWellFormed) depth 9
