-- ===== src/Clip.antt =====
-- src/services/payment.service.ts: card payments through the provider Clip. The webhook's handler is
-- in Clip/Webhook.antt.
pub mod Webhook
pub mod Locks
pub mod Credit
pub mod Once
pub mod Repeated
pub mod Submitted
pub mod Confirmed
pub mod Constraints
use banking_mobile_backend.Prelude.{
  ℕ, String, not, Option, none, some, str_eq, if◌then◌else◌, is_some, truthy, or_else, Error,
  bad_request, type_error, Result, ok, err, Action, ◌>>=◌, ◌>>◌, pure, gets, throw_if, or_throw,
  lift,
}
use banking_mobile_backend.Payments.{
  Payment, PaymentStatus, pending, processing, completed, is_pending, is_completed, ProviderPayment,
  ProviderRequest, ProviderCard, PendingAction, clip,
}
use banking_mobile_backend.Payments.Fees.{Number, calculate_payment_fees}
use banking_mobile_backend.Payments.Utils.{map_clip_status_to_internal}
use banking_mobile_backend.Payments.Repository.{
  get_payment_by_id, create_row, update_payment_status,
}
use banking_mobile_backend.Payments.Services.{Store, Services, Call, ask}

-- `PaymentRepository.createPayment`, on the decimals that the columns hold.
unfoldable pub new_payment :
    (user_id amount net_amount : ℕ) (currency description : Option String)
    (net_amount_mxn : Option ℕ) (idempotency_key : String)
    → (id : ℕ) → Payment
new_payment user_id amount net_amount currency description net_amount_mxn idempotency_key id =
    record {
      id = id;
      user_id = user_id;
      order_id = none;
      provider = clip;
      provider_payment_id = none;
      amount = amount;
      currency = or_else currency "MXN";
      description = some (or_else (truthy description) "Payment via banking app");
      net_amount = net_amount;
      net_amount_mxn = some (or_else net_amount_mxn net_amount);
      status = pending;
      idempotency_key = idempotency_key;
      request_payload = none;
      response_payload = none;
    }

pub record CreateResponse : Type 0 where
  pub payment_id : ℕ
  pub amount : ℕ
  pub currency : String
  pub description : Option String
  pub status : PaymentStatus

module _ (n : Number) where
  open n use {Num, to_decimal}

  pub record PaymentCreateRequest : Type 0 where
    pub amount : Num
    pub currency : Option String
    pub description : Option String
    pub net_amount_mxn : Option ℕ

  -- `idempotency_key` is the random UUID that `generateIdempotencyKey` draws.
  unfoldable pub create_payment :
      (fee_rate : Num) (user_id : ℕ) → PaymentCreateRequest → String → Action Store CreateResponse
  create_payment fee_rate user_id request idempotency_key = do
    let fees = calculate_payment_fees n fee_rate request.amount
    payment ← create_row (
        new_payment user_id (to_decimal fees.gross_amount) (to_decimal fees.net_amount)
          request.currency request.description request.net_amount_mxn idempotency_key)
    pure (record {
      payment_id = payment.id;
      amount = payment.amount;
      currency = payment.currency;
      description = truthy payment.description;
      status = payment.status;
    })

pub record ClientResponse : Type 0 where
  pub payment_id : String
  pub amount : ℕ
  pub currency : String
  pub status : PaymentStatus
  pub status_message : String
  pub receipt_no : String
  pub approved_at : Option String
  pub card_type : String
  pub card : ProviderCard
  pub pending_action : PendingAction

-- The card and the pending action are read before the tests of their presence, so an absent one is
-- a `TypeError`.
client_response :
    ProviderPayment
    → PaymentStatus
    → Option ProviderCard
    → Option PendingAction
    → Result ClientResponse
client_response payment status none action = err (type_error "card is undefined")
client_response payment status (some card) none = err (type_error "pending_action is undefined")
client_response payment status (some card) (some action) = ok (record {
  payment_id = payment.id;
  amount = payment.amount;
  currency = payment.currency;
  status = status;
  status_message = payment.status_message;
  receipt_no = payment.receipt_no;
  approved_at = payment.approved_at;
  card_type = payment.method_type;
  card = card;
  pending_action = action;
})

unfoldable pub map_to_client_response :
    ProviderPayment → Option PaymentStatus → Result ClientResponse
unfolding client_response
map_to_client_response payment override =
    client_response payment (or_else override (map_clip_status_to_internal (some payment.status)))
      payment.card payment.pending_action

abbrev before_webhook : PaymentStatus → PaymentStatus
before_webhook PaymentStatus.completed = processing
before_webhook status = status

unfoldable pub map_clip_status_before_webhook : Option String → PaymentStatus
map_clip_status_before_webhook status = before_webhook (map_clip_status_to_internal status)

-- `if (providerPaymentId)`: an empty id is not written.
abbrev pub non_empty : String → Option String
non_empty s = if str_eq s "" then none else some s

pub record ProcessPaymentRequest : Type 0 where
  pub card_token : String

unfoldable pub provider_request :
    (webhook_url email : String) (phone : Option String) → Payment → String → ProviderRequest
provider_request webhook_url email phone p token = record {
  amount = p.amount;
  currency = p.currency;
  description = or_else (truthy p.description) "Payment via banking app";
  token = token;
  email = email;
  phone = phone;
  webhook_url = webhook_url;
}

module _ (env : Services) where
  -- The provider's answer is stored, and only then turned into the client's response.
  unfoldable pub record_and_respond : ℕ → ProviderPayment → Action Store ClientResponse
  record_and_respond id payment = do
    let status = map_clip_status_before_webhook (some payment.status)
    update_payment_status id status (non_empty payment.id) (some payment) none
    lift (map_to_client_response payment (some status))

  unfoldable pub process_payment :
      (webhook_url : String) → ℕ → ProcessPaymentRequest → Action Store ClientResponse
  process_payment webhook_url id data' = do
    found ← get_payment_by_id id
    p ← or_throw found (bad_request "Payment not found")
    throw_if (not (is_pending p.status)) (bad_request "Payment has already been processed")
    user ← gets (λ s. s.accounts p.user_id)
    let request = provider_request webhook_url user.email user.phone p data'.card_token
    update_payment_status id pending none none (some request)
    payment ← ask env.process_payment Call.process_payment request
    record_and_respond id payment

  unfoldable pub get_payment_details : String → Action Store ClientResponse
  get_payment_details payment_id = do
    payment ← ask env.payment_details Call.payment_details payment_id
    lift (map_to_client_response payment none)

  unfoldable pub verify_payment_status : ℕ → Action Store ClientResponse
  verify_payment_status id = do
    found ← get_payment_by_id id
    p ← or_throw found (bad_request "Payment not found")
    key ←
        or_throw (truthy p.provider_payment_id)
          (bad_request "Payment has not been submitted to provider yet")
    payment ← ask env.payment_details Call.payment_details key
    record_and_respond id payment
