-- ===== src/Payments/Services.antt =====
-- The state of the payment services, and the services outside the repository: the card provider
-- (src/services/payment.provider.service.ts), the wallet (src/services/topup.backoffice.service.ts),
-- the QR bank (src/services/sip.bmsc.service.ts), e-mail and push messages. Their answers are
-- parameters: each is a function of the calls made before it and of the request. E-mail has no
-- answer, since `sendMail` catches every error and its result is only logged.
use banking_mobile_backend.Prelude.{
  ℕ, String, Option, none, some, List, [], ◌∷◌, Result, Action, ok,
}
use banking_mobile_backend.Payments.{
  Payment, ProviderPayment, ProviderRequest, TopUpRequest, TopUpResponse, SipQrObjeto,
  SipGenerateQrRequestDto,
}

-- `BackofficeAuthState` and `BackofficeCustomerProfile` of a user, by what a top-up reads of them.
pub record Wallet : Type 0 where
  pub ewallet_id : Option ℕ
  pub external_customer_id : Option ℕ

-- A row of `Users` with its relations.
pub record Account : Type 0 where
  pub email : String
  pub phone : Option String
  pub auth_state : Option Wallet
  pub profile : Option Wallet

-- The payment or the order that a push message names in its data.
pub data Reference : Type 0 where
  payment_ref : ℕ → Reference
  order_ref : String → Reference

-- A push message: its kind (`data.type`) and its reference; the texts are left out.
pub record Push : Type 0 where
  pub user_id : ℕ
  pub kind : String
  pub reference : Reference

pub data Call : Type 0 where
  process_payment : ProviderRequest → Call
  payment_details : String → Call
  top_up : TopUpRequest → Call
  generate_qr : SipGenerateQrRequestDto → Call
  proof_email : (kind email : String) → Call
  push : Push → Call

-- A row of `Transactions`, by what `createTopupIfNotExists` writes.
pub record Transaction : Type 0 where
  pub user_id : ℕ
  pub amount : ℕ
  pub description : String
  pub prospera_reference : String

-- A lock of `GET_LOCK`: its name, and the session of the database that holds it.
pub record Lock : Type 0 where
  pub name : String
  pub session : ℕ

-- `locks` are the locks that sessions hold; `calls` has the newest call first.
pub record Store : Type 0 where
  pub payments : List Payment
  pub next_id : ℕ
  pub transactions : List Transaction
  pub accounts : ℕ → Account
  pub locks : List Lock
  pub calls : List Call

-- What answers the calls. The queries of a lock run on whichever sessions of the client's pool are
-- free: `acquire_session` is the one of `GET_LOCK`, `release_session` that of `RELEASE_LOCK`.
pub record Services : Type 0 where
  pub acquire_session : ℕ
  pub release_session : ℕ
  pub process_payment : List Call → ProviderRequest → Result ProviderPayment
  pub payment_details : List Call → String → Result ProviderPayment
  pub top_up : List Call → TopUpRequest → Result TopUpResponse
  pub generate_qr : List Call → SipGenerateQrRequestDto → Result SipQrObjeto
  pub notify : List Call → Push → Result (Unit {0})

-- A call: it is recorded, and the answer may be an error.
unfoldable pub ask : {Q A : Type 0} → (List Call → Q → Result A) → (Q → Call) → Q → Action Store A
ask answer tag q s = (answer s.calls q, record s { calls = tag q ∷ s.calls })

-- `sendPaymentProofByEmail`
unfoldable pub send_proof : String → String → Action Store (Unit {0})
send_proof kind email s = (ok tt, record s { calls = Call.proof_email kind email ∷ s.calls })

-- The requests for a top-up that have been sent, the newest first.
abbrev pub top_up_of : Call → Option TopUpRequest
top_up_of (Call.top_up r) = some r
top_up_of _ = none

abbrev pub cons_some : {A : Type 0} → Option A → List A → List A
cons_some none xs = xs
cons_some (some x) xs = x ∷ xs

abbrev pub top_ups : List Call → List TopUpRequest
top_ups [] = []
top_ups (c ∷ cs) = cons_some (top_up_of c) (top_ups cs)
