-- ===== src/Sip/Recorded.antt =====
-- The transaction of an order that was paid: its reference, and what it says when it is new.
use Prim.Native.String.{◌++◌}
use banking_mobile_backend.Prelude.{
  ℕ, String, ◌≡◌, refl, sym, ◌∙◌, false, none, some, Option, or_else, List, Option-cases, inl, inr,
  find, Result, ok, Action, ◌>>=◌, or_throw, not_found,
}
use banking_mobile_backend.Prelude.Keeps.{Keeps, keeps_rules}
use banking_mobile_backend.Prelude.Triple.{Triple, Triple-bind, Triple-keep, Triple-run}
use banking_mobile_backend.Payments.{Payment, SipCallbackDto, is_completed}
use banking_mobile_backend.Payments.Fees.{Number}
use banking_mobile_backend.Payments.Services.{Store, Services, Call, Transaction, ask, send_proof}
use banking_mobile_backend.Payments.Repository.{
  get_payment_by_id, update_payment, merge_webhook_processing_result,
}
use banking_mobile_backend.Sip.{
  has_order, mark_failed, has_reference, topup_of, create_topup_if_not_exists, complete_sip_payment,
  find_by_order_id,
}
use banking_mobile_backend.Sip.Callback.{
  SipAckResponse, topup_ref, check_amount, check_currency, top_up_order, accept_order, settle_order,
  handle_sip_callback,
}
use banking_mobile_backend.Sip.Creation.{find-append, str_eq_refl}
use banking_mobile_backend.Sip.Delivery.{handle-open}
use banking_mobile_backend.Sip.Ledger.{update_payment-transactions}

-- The ledger has a transaction with the reference; when it had none `before`, it is one of the user
-- and of the amount.
pub record HasTransaction (ref : String) (user amount : ℕ) (before : List Transaction) (s : Store)
    : Type 0 where
  pub transaction : Transaction
  pub found : find (has_reference ref) s.transactions ≡ some transaction
  pub booked :
      find (has_reference ref) before ≡ none
      → (transaction.user_id ≡ user) × (transaction.amount ≡ amount)

module _ (before : List Transaction) where
  abbrev HasLedger : Store → Type 0
  HasLedger s = s.transactions ≡ before

  update_payment-HasLedger :
      (id : ℕ) (f : Payment → Payment) → Keeps HasLedger (update_payment id f)
  update_payment-HasLedger id f = record { at = λ s h. update_payment-transactions id f s ∙ h }

  check_amount-HasLedger :
      (n : Number) (p : Payment) (monto : Option String) → Keeps HasLedger (check_amount n p monto)
  unfolding check_amount mark_failed
  check_amount-HasLedger n p none = search (keeps_rules)
  check_amount-HasLedger n p (some monto) = search (keeps_rules, update_payment-HasLedger)

  check_currency-HasLedger :
      (p : Payment) (moneda : Option String) → Keeps HasLedger (check_currency p moneda)
  unfolding check_currency mark_failed
  check_currency-HasLedger p none = search (keeps_rules)
  check_currency-HasLedger p (some moneda) = search (keeps_rules, update_payment-HasLedger)

  complete_sip_payment-HasLedger :
      (id : ℕ) (dto : SipCallbackDto) → Keeps HasLedger (complete_sip_payment id dto)
  unfolding complete_sip_payment get_payment_by_id
  complete_sip_payment-HasLedger id dto = search (keeps_rules, update_payment-HasLedger)

module _ (ref : String) (user amount : ℕ) (before : List Transaction) where
  abbrev Has : Store → Type 0
  Has = HasTransaction ref user amount before

  HasTransaction-same : {s t : Store} → t.transactions ≡ s.transactions → Has s → Has t
  HasTransaction-same same h = record {
    transaction = h.transaction;
    found = rw same h.found;
    booked = h.booked;
  }

  update_payment-HasTransaction : (id : ℕ) (f : Payment → Payment) → Keeps Has (update_payment id f)
  update_payment-HasTransaction id f = record {
    at = λ s h. HasTransaction-same (update_payment-transactions id f s) h;
  }

  ask-HasTransaction :
      {Q A : Type 0} (answer : List Call → Q → Result A) (tag : Q → Call) (q : Q)
      → Keeps Has (ask answer tag q)
  unfolding ask
  ask-HasTransaction answer tag q = record { at = λ s h. HasTransaction-same refl h }

  send_proof-HasTransaction : (kind email : String) → Keeps Has (send_proof kind email)
  unfolding send_proof
  send_proof-HasTransaction kind email = record { at = λ s h. HasTransaction-same refl h }

  create_topup-HasTransaction :
      (description : String)
      → Triple
          (HasLedger before)
          (create_topup_if_not_exists user amount ref description)
          (λ _. Has)
          (λ _. Unit {0})
  unfolding create_topup_if_not_exists
  create_topup-HasTransaction description = record {
    at = λ s h. elim (Option-cases (find (has_reference ref) s.transactions)) [
      | inl missing ↦
          rw (missing, create_topup_if_not_exists)
            (record {
              transaction = topup_of user amount ref description;
              found =
                  find-append (has_reference ref) s.transactions
                    (topup_of user amount ref description) missing (str_eq_refl ref);
              booked = λ new. (refl, refl);
            })
      | inr (t, found) ↦
          rw (found, create_topup_if_not_exists)
            (record { transaction = t; found = found; booked = λ new. absurd (cc (found, new, h)) })
    ];
  }

  top_up_order-HasTransaction :
      (env : Services) (dto : SipCallbackDto) (p : Payment) → Keeps Has (top_up_order env dto p)
  unfolding top_up_order merge_webhook_processing_result
  top_up_order-HasTransaction env dto p =
      search
        (keeps_rules, ask-HasTransaction, send_proof-HasTransaction, update_payment-HasTransaction)
        depth 20

  rest-HasTransaction :
      (env : Services) (dto : SipCallbackDto)
      → Keeps Has (
          find_by_order_id dto.alias >>= λ again.
          or_throw again (not_found "Payment not found after completion") >>= top_up_order env dto)
  unfolding find_by_order_id
  rest-HasTransaction env dto = search (keeps_rules, top_up_order-HasTransaction) depth 12

module _ (env : Services) (n : Number) (dto : SipCallbackDto) (p : Payment)
    (before : List Transaction) where
  -- The transaction of the order: its reference is the prefix and the order's number, its user and
  -- amount are those of the order.
  abbrev pub OfOrder : Store → Type 0
  OfOrder =
      HasTransaction ("QRBMSC-" ++ dto.alias) p.user_id (or_else p.net_amount_mxn p.net_amount)
        before

  abbrev Records : Action Store SipAckResponse → Type 0
  Records m = Triple (HasLedger before) m (λ _. OfOrder) (λ _. Unit {0})

  after :
      {A : Type 0} (m : Action Store A) (f : A → Action Store SipAckResponse)
      → Keeps (HasLedger before) m
      → ((a : A) → Records (f a))
      → Records (m >>= f)
  after m f k h = Triple-bind (λ _. OfOrder) m f (Triple-keep k) h

  accept_order-Records : Records (accept_order env dto p)
  unfolding accept_order topup_ref
  accept_order-Records =
      after (complete_sip_payment p.id dto) _ (complete_sip_payment-HasLedger before p.id dto) (λ a.
        let ref = "QRBMSC-" ++ dto.alias in
        let amount = or_else p.net_amount_mxn p.net_amount in
        Triple-bind (λ _. OfOrder) (create_topup_if_not_exists p.user_id amount ref "SIP QR TOPUP")
          _ (create_topup-HasTransaction ref p.user_id amount before "SIP QR TOPUP")
          (λ b. Triple-keep (rest-HasTransaction ref p.user_id amount before env dto)))

  settle_order-Records : Records (settle_order env n dto p)
  unfolding settle_order
  settle_order-Records =
      after (check_amount n p dto.monto) _ (check_amount-HasLedger before n p dto.monto) (λ a.
        after (check_currency p dto.moneda) _ (check_currency-HasLedger before p dto.moneda)
          (λ b. accept_order-Records))

-- When a callback for an open order is acknowledged, the ledger has a transaction whose reference is
-- QRBMSC- and the order's number; when the ledger had none before, it is one of the user of the
-- order and of the order's net amount, in pesos when that is known.
pub handle_sip_callback-HasTransaction :
    (env : Services) (n : Number) (dto : SipCallbackDto) (p : Payment) (s : Store)
    {r : SipAckResponse} {s' : Store}
    → find (has_order dto.alias) s.payments ≡ some p
    → is_completed p.status ≡ false
    → handle_sip_callback env n dto s ≡ (ok r, s')
    → HasTransaction
        ("QRBMSC-" ++ dto.alias)
        p.user_id
        (or_else p.net_amount_mxn p.net_amount)
        s.transactions
        s'
handle_sip_callback-HasTransaction env n dto p s found open' run =
    Triple-run (λ _. OfOrder env n dto p s.transactions) (λ _. Unit {0})
      (settle_order-Records env n dto p s.transactions) refl
      (sym (handle-open env n dto s p found open') ∙ run)
