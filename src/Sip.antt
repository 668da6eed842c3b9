-- ===== src/Sip.antt =====
-- src/services/bmsc.payment.service.ts and src/repositories/bmsc.payment.repository.ts: payments by
-- a QR code of the bank BMSC (SIP).
pub mod Create
pub mod Callback
pub mod Replay
pub mod Creation
pub mod Delivery
pub mod Rejected
pub mod Ledger
pub mod Recorded
use Prim.Native.String
use banking_mobile_backend.Prelude.{
  ℕ, String, Option, none, some, Bool, ◌&&◌, ◌++◌, ◌∷◌, [], str_eq, Action, ◌>>=◌, ◌>>◌, pure, gets,
  if◌then◌else◌, or_else, find, ok, ◌-◌,
}
use banking_mobile_backend.Payments.{
  Payment, PaymentStatus, pending, completed, failed, qrbmsc, qr_request, SipGenerateQrRequestDto,
  SipQrObjeto, SipCallbackDto, FailureReason, ResponsePayload,
}
use banking_mobile_backend.Payments.Services.{Store, Transaction}
use banking_mobile_backend.Payments.Repository.{
  update_payment, create_row, same_provider, is_value, no_payload, get_payment_by_id,
}

-- The first `n` characters (`slice(0, n)`; a character outside the basic plane counts once here).
abbrev pub slice : ℕ → String → String
slice ℕ.zero s = ""
slice (ℕ.suc n) String.[] = ""
slice (ℕ.suc n) (String.◌∷◌ c s) = String.◌∷◌ c (slice n s)

pub record CreateSipPaymentInput : Type 0 where
  pub user_id : ℕ
  pub order_id : String
  pub amount : ℕ
  pub currency : String
  pub description : String
  pub net_amount_mxn : Option ℕ
  pub idempotency_key : String
  pub request_payload : SipGenerateQrRequestDto

unfoldable pub sip_row : CreateSipPaymentInput → ℕ → Payment
sip_row input id = record {
  id = id;
  user_id = input.user_id;
  order_id = some input.order_id;
  provider = qrbmsc;
  provider_payment_id = none;
  amount = input.amount;
  currency = input.currency;
  description = some (slice 255 input.description);
  net_amount = 0;
  net_amount_mxn = some (or_else input.net_amount_mxn 0);
  status = pending;
  idempotency_key = input.idempotency_key;
  request_payload = some (qr_request input.request_payload);
  response_payload = none;
}

unfoldable pub create_sip_payment : CreateSipPaymentInput → Action Store Payment
create_sip_payment input = create_row (sip_row input)

abbrev pub has_key : String → Payment → Bool
has_key key p = str_eq p.idempotency_key key

abbrev pub has_order : String → Payment → Bool
has_order order p = same_provider p.provider qrbmsc && is_value p.order_id order

unfoldable pub find_by_idempotency_key : String → Action Store (Option Payment)
find_by_idempotency_key key = gets (λ s. find (has_key key) s.payments)

unfoldable pub find_by_order_id : String → Action Store (Option Payment)
find_by_order_id order = gets (λ s. find (has_order order) s.payments)

unfoldable pub with_qr : SipQrObjeto → Payment → Payment
with_qr qr p = record p {
  provider_payment_id = some qr.id_qr;
  response_payload = some (record no_payload { qr_fields = some qr });
}

unfoldable pub save_sip_qr_response : ℕ → SipQrObjeto → Action Store Payment
save_sip_qr_response id qr = update_payment id (with_qr qr)

-- The reason replaces what the column held.
unfoldable pub with_failure : FailureReason → Payment → Payment
with_failure reason p = record p {
  status = failed;
  response_payload = some (record no_payload { reason = some reason });
}

unfoldable pub mark_failed : ℕ → FailureReason → Action Store Payment
mark_failed id reason = update_payment id (with_failure reason)

abbrev pub payload_of : Option Payment → ResponsePayload
payload_of none = no_payload
payload_of (some p) = or_else p.response_payload no_payload

unfoldable pub with_callback : ResponsePayload → SipCallbackDto → Payment → Payment
with_callback existing callback p = record p {
  status = completed;
  response_payload = some (record existing { callback = some callback });
}

unfoldable pub complete_sip_payment : ℕ → SipCallbackDto → Action Store Payment
complete_sip_payment id callback = do
  existing ← get_payment_by_id id
  update_payment id (with_callback (payload_of existing) callback)

abbrev pub has_reference : String → Transaction → Bool
has_reference ref t = str_eq t.prospera_reference ref

abbrev pub topup_of : (user_id amount : ℕ) (prospera_reference description : String) → Transaction
topup_of user_id amount ref description = record {
  user_id = user_id;
  amount = amount;
  description = description;
  prospera_reference = ref;
}

unfoldable pub create_topup_if_not_exists :
    (user_id amount : ℕ) (prospera_reference description : String) → Action Store Transaction
create_topup_if_not_exists user_id amount ref description s =
    elim (find (has_reference ref) s.transactions) [
      | some t ↦ (ok t, s)
      | none ↦
          let t = topup_of user_id amount ref description in
          (ok t, record s { transactions = s.transactions ++ t ∷ [] })
    ]
