-- ===== src/Sip/Rejected.antt =====
-- src/services/bmsc.payment.service.ts, `handleSipCallback`: a callback that does not fit its order.
use banking_mobile_backend.Prelude.{
  ℕ, String, ◌≡◌, refl, true, false, Option, none, some, List, arith, find, ok, err, Error, Result,
  Action, ◌>>=◌, str_eq, bad_request,
}
use banking_mobile_backend.Prelude.Keeps.{Keeps, keeps_rules}
use banking_mobile_backend.Prelude.Triple.{
  Triple, Outcome, Triple-bind, Triple-of_Keeps, Triple-throw,
}
use banking_mobile_backend.Payments.{
  Payment, is_completed, SipCallbackDto, FailureReason, amount_mismatch, currency_mismatch,
}
use banking_mobile_backend.Payments.Fees.{Number}
use banking_mobile_backend.Payments.Services.{Store, Services, Call, Transaction}
use banking_mobile_backend.Payments.Repository.{update_payment}
use banking_mobile_backend.Sip.{has_order, mark_failed}
use banking_mobile_backend.Sip.Callback.{
  SipAckResponse, amount_differs, check_amount, check_currency, settle_order, handle_sip_callback,
}
use banking_mobile_backend.Sip.Delivery.{handle-open}

-- The body names an amount or a currency that is not that of the order.
pub data Mismatch (n : Number) (p : Payment) (dto : SipCallbackDto) : Type 0 where
  amount :
      (monto : String)
      → dto.monto ≡ some monto
      → amount_differs n p.amount monto ≡ true
      → Mismatch n p dto
  currency :
      (moneda : String)
      → dto.moneda ≡ some moneda
      → str_eq moneda p.currency ≡ false
      → Mismatch n p dto

-- The ledger and the calls of other services.
abbrev pub HasEffects : List Transaction → List Call → Store → Type 0
HasEffects ts cs s = (s.transactions ≡ ts) × (s.calls ≡ cs)

module _ (ts : List Transaction) (cs : List Call) where
  abbrev Fails : {A : Type 0} → Action Store A → Type 0
  Fails m = Triple (HasEffects ts cs) m (λ _ _. ⊥) (HasEffects ts cs)

  mark_failed-HasEffects :
      (id : ℕ) (reason : FailureReason) → Keeps (HasEffects ts cs) (mark_failed id reason)
  unfolding mark_failed update_payment
  mark_failed-HasEffects id reason = record { at = λ s h. (ground arith, ground arith) }

  Fails-bind :
      {A B : Type 0} (m : Action Store A) (f : A → Action Store B)
      → Keeps (HasEffects ts cs) m
      → ((a : A) → Fails (f a))
      → Fails (m >>= f)
  Fails-bind m f k h = Triple-bind (λ _ _. ⊥) m f (Triple-of_Keeps (HasEffects ts cs) m k) h

  Fails-first :
      {A B : Type 0} (m : Action Store A) (f : A → Action Store B) → Fails m → Fails (m >>= f)
  Fails-first m f h = Triple-bind (λ _ _. ⊥) m f h (λ a. record { at = λ s x. absurd x })

  module _ (n : Number) (p : Payment) where
    check_amount-HasEffects :
        (monto : Option String) → Keeps (HasEffects ts cs) (check_amount n p monto)
    unfolding check_amount
    check_amount-HasEffects none = search keeps_rules
    check_amount-HasEffects (some monto) = search (keeps_rules, mark_failed-HasEffects)

    check_amount-Fails :
        (monto : String)
        → amount_differs n p.amount monto ≡ true
        → Fails (check_amount n p (some monto))
    unfolding check_amount
    check_amount-Fails monto differs = rw differs (
        Fails-bind (mark_failed p.id (amount_mismatch p.amount monto)) _
          (mark_failed-HasEffects _ _)
          (λ a. Triple-throw (HasEffects ts cs) (bad_request "Amount mismatch") (λ _ _. ⊥)))

    check_currency-Fails :
        (moneda : String)
        → str_eq moneda p.currency ≡ false
        → Fails (check_currency p (some moneda))
    unfolding check_currency
    check_currency-Fails moneda differs = rw differs (
        Fails-bind (mark_failed p.id (currency_mismatch p.currency moneda)) _
          (mark_failed-HasEffects _ _)
          (λ a. Triple-throw (HasEffects ts cs) (bad_request "Currency mismatch") (λ _ _. ⊥)))

    settle_order-Fails :
        (env : Services) (dto : SipCallbackDto)
        → Mismatch n p dto
        → Fails (settle_order env n dto p)
    unfolding settle_order
    settle_order-Fails env dto (amount monto named differs) =
        rw named (Fails-first _ _ (check_amount-Fails monto differs))
    settle_order-Fails env dto (currency moneda named differs) = rw named (
        Fails-bind _ _ (check_amount-HasEffects dto.monto)
          (λ a. Fails-first _ _ (check_currency-Fails moneda differs)))

-- The outcome is an error, and the ledger and the calls are as before.
pub record IsRejected (s : Store) (t : Result SipAckResponse × Store) : Type 0 where
  pub error : Error
  pub failed : t.0 ≡ err error
  pub transactions : t.1.transactions ≡ s.transactions
  pub calls : t.1.calls ≡ s.calls

rejected :
    (s : Store) (t : Result SipAckResponse × Store)
    → Outcome (λ _ _. ⊥) (HasEffects s.transactions s.calls) t
    → IsRejected s t
rejected s (ok r, s') h = absurd h
rejected s (err e, s') h = record { error = e; failed = refl; transactions = h.0; calls = h.1 }

-- A callback for an open order whose amount is more than a cent off, or whose currency is another,
-- ends in an error, and neither is the ledger written nor any service called: nothing is credited.
pub handle_sip_callback-IsRejected :
    (env : Services) (n : Number) (dto : SipCallbackDto) (p : Payment) (s : Store)
    → find (has_order dto.alias) s.payments ≡ some p
    → is_completed p.status ≡ false
    → Mismatch n p dto
    → IsRejected s (handle_sip_callback env n dto s)
handle_sip_callback-IsRejected env n dto p s found open' mismatch =
    rw (handle-open env n dto s p found open') (
      rejected s (settle_order env n dto p s)
        ((settle_order-Fails s.transactions s.calls n p env dto mismatch).at s (refl, refl)))
