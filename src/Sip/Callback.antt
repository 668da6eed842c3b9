-- ===== src/Sip/Callback.antt =====
-- src/services/bmsc.payment.service.ts, `handleSipCallback`.
use Prim.Native.String
use banking_mobile_backend.Prelude.{
  ℕ, String, Bool, not, Option, none, some, str_eq, if◌then◌else◌, Action, ◌>>=◌, ◌>>◌, pure, throw,
  gets, or_throw, lift, not_found, bad_request,
}
use banking_mobile_backend.Payments.{
  Payment, completed, is_completed, SipCallbackDto, amount_mismatch, currency_mismatch,
}
use banking_mobile_backend.Payments.Fees.{Number}
use banking_mobile_backend.Payments.Topup.{
  build_topup_request_from_payment, build_topup_payload_from_request, credited,
}
use banking_mobile_backend.Payments.Repository.{merge_webhook_processing_result}
use banking_mobile_backend.Payments.Services.{Store, Services, Call, order_ref, ask, send_proof}
use banking_mobile_backend.Sip.{
  find_by_order_id, mark_failed, complete_sip_payment, create_topup_if_not_exists,
}

pub record SipAckResponse : Type 0 where
  pub codigo : String
  pub mensaje : String

abbrev pub ack : SipAckResponse
ack = record { codigo = "0000"; mensaje = "Registro Exitoso" }

-- The reference of the ledger's transaction for an order.
unfoldable pub topup_ref : String → String
topup_ref alias = String.◌++◌ "QRBMSC-" alias

module _ (n : Number) where
  open n use {of_decimal, of_text, sub, abs, gt, cent}

  -- `Math.abs(expected - received) > 0.01`
  unfoldable pub amount_differs : ℕ → String → Bool
  amount_differs expected monto = gt (abs (sub (of_decimal expected) (of_text monto))) cent

  -- The messages of the errors are without the numbers and the names that the source prints.
  unfoldable pub check_amount : Payment → Option String → Action Store (Unit {0})
  check_amount p none = pure tt
  check_amount p (some monto) =
      if amount_differs p.amount monto
      then mark_failed p.id (amount_mismatch p.amount monto)
        >> throw (bad_request "Amount mismatch")
      else pure tt

-- `dto.moneda !== payment.currency`
unfoldable pub check_currency : Payment → Option String → Action Store (Unit {0})
check_currency p none = pure tt
check_currency p (some moneda) =
    if not (str_eq moneda p.currency)
    then mark_failed p.id (currency_mismatch p.currency moneda)
      >> throw (bad_request "Currency mismatch")
    else pure tt

module _ (env : Services) where
  -- From the second reading of the row on.
  unfoldable pub top_up_order : SipCallbackDto → Payment → Action Store SipAckResponse
  top_up_order dto p = do
    user ← gets (λ s. s.accounts p.user_id)
    request ← lift (build_topup_request_from_payment p user)
    response ← ask env.top_up Call.top_up request
    merge_webhook_processing_result p.id completed none none
        (some (build_topup_payload_from_request request completed (some response) none none))
    send_proof "qr" user.email
    ask env.notify Call.push
        (record { user_id = p.user_id; kind = "sip_topup"; reference = order_ref dto.alias })
    pure ack

  -- What follows the checks.
  unfoldable pub accept_order : SipCallbackDto → Payment → Action Store SipAckResponse
  accept_order dto p = do
    complete_sip_payment p.id dto
    create_topup_if_not_exists p.user_id (credited p) (topup_ref dto.alias) "SIP QR TOPUP"
    again ← find_by_order_id dto.alias
    updated ← or_throw again (not_found "Payment not found after completion")
    top_up_order dto updated

  unfoldable pub settle_order : Number → SipCallbackDto → Payment → Action Store SipAckResponse
  settle_order n dto p = do
    check_amount n p dto.monto
    check_currency p dto.moneda
    accept_order dto p

  unfoldable pub handle_sip_callback : Number → SipCallbackDto → Action Store SipAckResponse
  handle_sip_callback n dto = do
    found ← find_by_order_id dto.alias
    p ← or_throw found (not_found "Payment not found for alias")
    if is_completed p.status then pure ack else settle_order n dto p
