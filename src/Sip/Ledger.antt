-- ===== src/Sip/Ledger.antt =====
-- The ledger: `createTopupIfNotExists` writes one transaction for a reference at most.
use banking_mobile_backend.Prelude.{
  ℕ, String, ◌≡◌, false, Option, none, some, List, [], ◌∷◌, ◌++◌, All, Option-cases, Bool-cases,
  inl, inr, arith, eq_iff, find, Result,
}
use banking_mobile_backend.Prelude.Keeps.{Keeps, keeps_rules}
use banking_mobile_backend.Payments.{Payment, SipCallbackDto}
use banking_mobile_backend.Payments.Fees.{Number}
use banking_mobile_backend.Payments.Services.{Store, Services, Call, Transaction, ask, send_proof}
use banking_mobile_backend.Payments.Repository.{
  update_payment, merge_webhook_processing_result, get_payment_by_id,
}
use banking_mobile_backend.Sip.{
  has_reference, topup_of, create_topup_if_not_exists, mark_failed, complete_sip_payment,
  find_by_order_id,
}
use banking_mobile_backend.Sip.Callback.{
  check_amount, check_currency, top_up_order, accept_order, settle_order, handle_sip_callback,
}

-- No transaction of the list has the reference.
abbrev Lacks : String → List Transaction → Type 0
Lacks ref ts = All (λ t. has_reference ref t ≡ false) ts

-- No two transactions have the same reference.
abbrev pub HasDistinctReferences : List Transaction → Type 0
HasDistinctReferences [] = Unit
HasDistinctReferences (t ∷ ts) = Lacks t.prospera_reference ts × HasDistinctReferences ts

abbrev pub IsLedger : Store → Type 0
IsLedger s = HasDistinctReferences s.transactions

has_reference_comm :
    (t u : Transaction)
    → has_reference u.prospera_reference t ≡ has_reference t.prospera_reference u
has_reference_comm t u = ground (
  arith,
  eq_iff t.prospera_reference u.prospera_reference,
  eq_iff u.prospera_reference t.prospera_reference,
)

Lacks-append :
    (ref : String) (ts : List Transaction) (t : Transaction)
    → Lacks ref ts
    → has_reference ref t ≡ false
    → Lacks ref (ts ++ t ∷ [])
Lacks-append ref [] t h other = (other, tt)
Lacks-append ref (u ∷ us) t h other = (h.0, Lacks-append ref us t h.1 other)

find-head :
    (ref : String) (t : Transaction) (ts : List Transaction)
    → find (has_reference ref) (t ∷ ts) ≡ none
    → (has_reference ref t ≡ false) × (find (has_reference ref) ts ≡ none)
unfolding find
find-head ref t ts h = elim (Bool-cases (has_reference ref t)) [
  | inl same ↦ cc (same, h)
  | inr other ↦ (other, cc (other, h))
]

HasDistinctReferences-append :
    (ts : List Transaction) (t : Transaction)
    → find (has_reference t.prospera_reference) ts ≡ none
    → HasDistinctReferences ts
    → HasDistinctReferences (ts ++ t ∷ [])
HasDistinctReferences-append [] t h distinct = (tt, tt)
HasDistinctReferences-append (u ∷ us) t h distinct =
    let (other, rest) = find-head t.prospera_reference u us h in
    (
      Lacks-append u.prospera_reference us t distinct.0 (rw (has_reference_comm t u) other),
      HasDistinctReferences-append us t rest distinct.1,
    )

create_topup-IsLedger :
    (user_id amount : ℕ) (ref description : String)
    → Keeps IsLedger (create_topup_if_not_exists user_id amount ref description)
unfolding create_topup_if_not_exists
create_topup-IsLedger user_id amount ref description = record {
  at = λ s h. elim (Option-cases (find (has_reference ref) s.transactions)) [
    | inl missing ↦
        rw (missing, create_topup_if_not_exists)
          (HasDistinctReferences-append s.transactions (topup_of user_id amount ref description)
            missing h)
    | inr (t, found) ↦ rw (found, create_topup_if_not_exists) h
  ];
}

pub update_payment-transactions :
    (id : ℕ) (f : Payment → Payment) (s : Store)
    → (update_payment id f s).1.transactions ≡ s.transactions
unfolding update_payment
update_payment-transactions id f s = ground arith

update_payment-IsLedger : (id : ℕ) (f : Payment → Payment) → Keeps IsLedger (update_payment id f)
update_payment-IsLedger id f = record { at = λ s h. rw (update_payment-transactions id f s) h }

ask-IsLedger :
    {Q A : Type 0} (answer : List Call → Q → Result A) (tag : Q → Call) (q : Q)
    → Keeps IsLedger (ask answer tag q)
unfolding ask
ask-IsLedger answer tag q = record { at = λ s h. h }

send_proof-IsLedger : (kind email : String) → Keeps IsLedger (send_proof kind email)
unfolding send_proof
send_proof-IsLedger kind email = record { at = λ s h. h }

ruleset ledger_rules =
    (keeps_rules, create_topup-IsLedger, update_payment-IsLedger, ask-IsLedger, send_proof-IsLedger)

check_amount-IsLedger :
    (n : Number) (p : Payment) (monto : Option String) → Keeps IsLedger (check_amount n p monto)
unfolding check_amount mark_failed
check_amount-IsLedger n p (some monto) = search ledger_rules
check_amount-IsLedger n p _ = search ledger_rules

check_currency-IsLedger :
    (p : Payment) (moneda : Option String) → Keeps IsLedger (check_currency p moneda)
unfolding check_currency mark_failed
check_currency-IsLedger p (some moneda) = search ledger_rules
check_currency-IsLedger p _ = search ledger_rules

top_up_order-IsLedger :
    (env : Services) (dto : SipCallbackDto) (p : Payment) → Keeps IsLedger (top_up_order env dto p)
unfolding top_up_order merge_webhook_processing_result
top_up_order-IsLedger env dto p = search ledger_rules depth 20

handle-Keeps :
    (env : Services) (n : Number) (dto : SipCallbackDto)
    → Keeps IsLedger (handle_sip_callback env n dto)
unfolding handle_sip_callback settle_order accept_order find_by_order_id complete_sip_payment
    get_payment_by_id
handle-Keeps env n dto =
    search (ledger_rules, check_amount-IsLedger, check_currency-IsLedger, top_up_order-IsLedger)
      depth 24

-- A callback, however it ends, leaves at most one transaction for each reference in the ledger, if
-- there was at most one before.
pub handle_sip_callback-IsLedger :
    (env : Services) (n : Number) (dto : SipCallbackDto) (s : Store)
    → IsLedger s
    → IsLedger (handle_sip_callback env n dto s).1
handle_sip_callback-IsLedger env n dto s h = (handle-Keeps env n dto).at s h
