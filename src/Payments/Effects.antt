-- ===== src/Payments/Effects.antt =====
-- What the steps of the payment services leave alone.
use banking_mobile_backend.Prelude.{ℕ, String, ◌≡◌, List, Result, arith, Bool-cases, inl, inr}
use banking_mobile_backend.Prelude.Keeps.{Keeps, keeps_rules}
use banking_mobile_backend.Payments.{Payment, TopUpRequest}
use banking_mobile_backend.Payments.Services.{Store, Lock, Call, ask, send_proof, top_ups}
use banking_mobile_backend.Payments.WellFormed.{IsWellFormed}
use banking_mobile_backend.Payments.Repository.{
  is_held, update_payment, acquire_payment_lock, release_payment_lock,
}

abbrev pub HasLocks : List Lock → Store → Type 0
HasLocks locks s = s.locks ≡ locks

abbrev pub HasTopUps : List TopUpRequest → Store → Type 0
HasTopUps sent s = top_ups s.calls ≡ sent

abbrev pub HasPayments : List Payment → Store → Type 0
HasPayments rows s = s.payments ≡ rows

module _ {Q A : Type 0} (answer : List Call → Q → Result A) (tag : Q → Call) (q : Q) where
  pub ask-HasLocks : (locks : List Lock) → Keeps (HasLocks locks) (ask answer tag q)
  unfolding ask
  ask-HasLocks locks = record { at = λ s h. h }

  pub ask-IsWellFormed : Keeps IsWellFormed (ask answer tag q)
  unfolding ask
  ask-IsWellFormed = record { at = λ s h. record { distinct = h.distinct; numbered = h.numbered } }

module _ (kind email : String) where
  pub send_proof-HasLocks : (locks : List Lock) → Keeps (HasLocks locks) (send_proof kind email)
  unfolding send_proof
  send_proof-HasLocks locks = record { at = λ s h. h }

  pub send_proof-HasTopUps :
      (sent : List TopUpRequest) → Keeps (HasTopUps sent) (send_proof kind email)
  unfolding send_proof
  send_proof-HasTopUps sent = record { at = λ s h. h }

  pub send_proof-IsWellFormed : Keeps IsWellFormed (send_proof kind email)
  unfolding send_proof
  send_proof-IsWellFormed = record {
    at = λ s h. record { distinct = h.distinct; numbered = h.numbered };
  }

module _ (id : ℕ) (f : Payment → Payment) where
  pub update_payment-HasLocks : (locks : List Lock) → Keeps (HasLocks locks) (update_payment id f)
  unfolding update_payment
  update_payment-HasLocks locks = record { at = λ s h. ground arith }

  pub update_payment-HasTopUps :
      (sent : List TopUpRequest) → Keeps (HasTopUps sent) (update_payment id f)
  unfolding update_payment
  update_payment-HasTopUps sent = record { at = λ s h. ground arith }

module _ (session : ℕ) (name : String) where
  pub acquire_payment_lock-IsWellFormed : Keeps IsWellFormed (acquire_payment_lock session name)
  unfolding acquire_payment_lock
  acquire_payment_lock-IsWellFormed = record {
    at = λ s h. elim (Bool-cases (is_held session name s.locks)) [
      | inl held ↦ rw held h
      | inr not_held ↦ rw not_held (record { distinct = h.distinct; numbered = h.numbered })
    ];
  }

  pub release_payment_lock-IsWellFormed : Keeps IsWellFormed (release_payment_lock session name)
  unfolding release_payment_lock
  release_payment_lock-IsWellFormed = record {
    at = λ s h. record { distinct = h.distinct; numbered = h.numbered };
  }

pub ruleset lock_rules = (keeps_rules, ask-HasLocks, send_proof-HasLocks, update_payment-HasLocks)
