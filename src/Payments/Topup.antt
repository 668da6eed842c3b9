-- ===== src/Payments/Topup.antt =====
-- src/utils/topup.utils.ts: the request for a top-up from a payment, and its record.
use banking_mobile_backend.Prelude.{
  ℕ, String, Option, none, some, Result, ok, err, bad_request, type_error, or_else,
}
use banking_mobile_backend.Payments.{
  Payment, PaymentStatus, TopUpRequest, TopUpResponse, TopupPayload,
}
use banking_mobile_backend.Payments.Services.{Wallet, Account}

-- `a ?? profile!.field`: reading a field of a missing profile is a `TypeError`.
field_or_profile : Option ℕ → (Wallet → Option ℕ) → Option Wallet → Result (Option ℕ)
field_or_profile (some n) field profile = ok (some n)
field_or_profile none field none = err (type_error "profile is null")
field_or_profile none field (some w) = ok (field w)

-- `!ewalletId || !externalCustomerId` is true of null and of 0. `amount` is `payment.net_amount_mxn ?? payment.net_amount`.
abbrev pub credited : Payment → ℕ
credited p = or_else p.net_amount_mxn p.net_amount

topup_request_of : Payment → Result (Option ℕ) → Result (Option ℕ) → Result TopUpRequest
topup_request_of p (err e) customer = err e
topup_request_of p (ok wallet) (err e) = err e
topup_request_of p (ok (some (ℕ.suc w))) (ok (some (ℕ.suc c))) = ok (record {
  external_transaction_id = p.idempotency_key;
  balance_id = ℕ.suc w;
  amount = credited p;
  source_customer_id = ℕ.suc c;
})
topup_request_of p (ok _) (ok _) = err (bad_request "User backoffice data is incomplete for topup")

topup_request_for : Payment → Option Wallet → Option Wallet → Result TopUpRequest
unfolding topup_request_of field_or_profile
topup_request_for p none profile = err (type_error "authState is null")
topup_request_for p (some auth) profile =
    topup_request_of p (field_or_profile auth.ewallet_id (λ w. w.ewallet_id) profile)
      (field_or_profile auth.external_customer_id (λ w. w.external_customer_id) profile)

unfoldable pub build_topup_request_from_payment : Payment → Account → Result TopUpRequest
unfolding topup_request_for
build_topup_request_from_payment p user = topup_request_for p user.auth_state user.profile

unfoldable pub build_topup_payload_from_request :
    TopUpRequest
    → PaymentStatus
    → (response : Option TopUpResponse) (note error : Option String) → TopupPayload
build_topup_payload_from_request r status response note error = record {
  status = status;
  external_transaction_id = r.external_transaction_id;
  amount = r.amount;
  balance_id = r.balance_id;
  source_customer_id = r.source_customer_id;
  response = response;
  note = note;
  error = error;
}
