-- ===== src/Sip/Replay.antt =====
-- src/services/bmsc.payment.service.ts, `handleSipCallback`: how the order's row and the calls of
-- the wallet go together in a callback.
use banking_mobile_backend.Prelude.{
  ℕ, String, ◌≡◌, refl, ◌⊎◌, inl, inr, true, Option, none, some, List, Option-cases, find, Action,
  ◌>>=◌, ◌>>◌, or_throw, not_found,
}
use banking_mobile_backend.Prelude.Keeps.{Keeps, keeps_rules, Keeps-gets}
use banking_mobile_backend.Prelude.Triple.{
  Triple, Triple-bind, Triple-of_Keeps, Triple-weaken, Triple-and, Triple-require,
}
use banking_mobile_backend.Payments.{
  Payment, completed, is_completed, SipCallbackDto, FailureReason, TopUpRequest, TopupPayload,
}
use banking_mobile_backend.Payments.Fees.{Number}
use banking_mobile_backend.Payments.Topup.{credited}
use banking_mobile_backend.Payments.Services.{Store, Services}
use banking_mobile_backend.Payments.Repository.{
  has_id, merged, merge_webhook_processing_result, get_payment_by_id,
}
use banking_mobile_backend.Payments.Effects.{HasTopUps, update_payment-HasTopUps}
use banking_mobile_backend.Payments.Rows.{
  FindsBy, FindsBy-same, ask-FindsBy, send_proof-FindsBy, update_payment-FindsBy,
  update_payment-FindsBy_any,
}
use banking_mobile_backend.Sip.{
  has_order, has_reference, with_callback, payload_of, complete_sip_payment,
  create_topup_if_not_exists, find_by_order_id, mark_failed, with_failure,
}
use banking_mobile_backend.Sip.Callback.{
  check_amount, check_currency, top_up_order, accept_order, settle_order, topup_ref,
}

abbrev pub Completed : Payment → Type 0
Completed p = is_completed p.status ≡ true

abbrev pub Exists : Payment → Type 0
Exists p = Unit {0}

module _ (alias : String) (id : ℕ) where
  merge-Completed :
      (other : ℕ) (topup : Option TopupPayload)
      → Keeps
          (FindsBy (has_order alias) id Completed)
          (merge_webhook_processing_result other completed none none topup)
  unfolding merge_webhook_processing_result merged
  merge-Completed other topup =
      update_payment-FindsBy_any (has_order alias) id (merged completed none none topup) (λ p. refl)
        (λ p. refl) other Completed (λ p h. refl)

  create_topup-FindsBy :
      (P : Payment → Type 0) (user_id amount : ℕ) (ref description : String)
      → Keeps
          (FindsBy (has_order alias) id P)
          (create_topup_if_not_exists user_id amount ref description)
  unfolding create_topup_if_not_exists
  create_topup-FindsBy P user_id amount ref description = record {
    at = λ s h. elim (Option-cases (find (has_reference ref) s.transactions)) [
      | inl missing ↦
          rw (missing, create_topup_if_not_exists) (FindsBy-same (has_order alias) id P refl h)
      | inr (t, found) ↦ rw (found, create_topup_if_not_exists) h
    ];
  }

  complete_sip_payment-Completed :
      (dto : SipCallbackDto)
      → Triple
          (FindsBy (has_order alias) id Exists)
          (complete_sip_payment id dto)
          (λ _. FindsBy (has_order alias) id Completed)
          (FindsBy (has_order alias) id Exists)
  unfolding complete_sip_payment get_payment_by_id with_callback
  complete_sip_payment-Completed dto =
      Triple-bind (λ _. FindsBy (has_order alias) id Completed) (get_payment_by_id id) _
        (Triple-of_Keeps (FindsBy (has_order alias) id Exists) (get_payment_by_id id)
          (Keeps-gets (λ s. find (has_id id) s.payments)))
        (λ existing.
          update_payment-FindsBy (has_order alias) id (with_callback (payload_of existing) dto)
            (λ p. refl) (λ p. refl) Exists Completed (λ p h. refl))

  top_up_order-Completed :
      (env : Services) (dto : SipCallbackDto) (p : Payment)
      → Keeps (FindsBy (has_order alias) id Completed) (top_up_order env dto p)
  unfolding top_up_order
  top_up_order-Completed env dto p =
      search (keeps_rules, ask-FindsBy, send_proof-FindsBy, merge-Completed) depth 20

  complete_sip_payment-HasTopUps :
      (sent : List TopUpRequest) (dto : SipCallbackDto)
      → Keeps (HasTopUps sent) (complete_sip_payment id dto)
  unfolding complete_sip_payment get_payment_by_id
  complete_sip_payment-HasTopUps sent dto = search (keeps_rules, update_payment-HasTopUps)

  -- Until the order is completed, no top-up has been sent.
  abbrev pub Safe : List TopUpRequest → Store → Type 0
  Safe sent s = HasTopUps sent s ⊎ FindsBy (has_order alias) id Completed s

  after_complete :
      (env : Services) (dto : SipCallbackDto) (p : Payment)
      → Keeps (FindsBy (has_order alias) id Completed) (
          create_topup_if_not_exists p.user_id (credited p) (topup_ref dto.alias) "SIP QR TOPUP"
          >> (find_by_order_id dto.alias >>= λ again.
              or_throw again (not_found "Payment not found after completion")
              >>= top_up_order env dto))
  unfolding find_by_order_id
  after_complete env dto p =
      search (keeps_rules, create_topup-FindsBy, top_up_order-Completed) depth 12

  Safe-complete :
      (dto : SipCallbackDto) (sent : List TopUpRequest)
      → Triple
          (λ s. FindsBy (has_order alias) id Exists s × HasTopUps sent s)
          (complete_sip_payment id dto)
          (λ _ s. FindsBy (has_order alias) id Completed s × HasTopUps sent s)
          (Safe sent)
  Safe-complete dto sent =
      Triple-weaken (λ s. FindsBy (has_order alias) id Exists s × HasTopUps sent s) (Safe sent) _
        (λ s h. inl h.1)
        (Triple-and (λ _. FindsBy (has_order alias) id Completed) _ (HasTopUps sent)
          (complete_sip_payment-Completed dto) (complete_sip_payment-HasTopUps sent dto))

  Safe-after :
      (env : Services) (dto : SipCallbackDto) (p : Payment) (sent : List TopUpRequest)
      → Triple
          (λ s. FindsBy (has_order alias) id Completed s × HasTopUps sent s)
          (create_topup_if_not_exists p.user_id (credited p) (topup_ref dto.alias) "SIP QR TOPUP"
            >> (find_by_order_id dto.alias >>= λ again.
                or_throw again (not_found "Payment not found after completion")
                >>= top_up_order env dto))
          (λ _. FindsBy (has_order alias) id Completed)
          (Safe sent)
  Safe-after env dto p sent =
      Triple-require (λ s h. h.0)
        (Triple-weaken (FindsBy (has_order alias) id Completed) (Safe sent) _ (λ s h. inr h)
          (Triple-of_Keeps (FindsBy (has_order alias) id Completed) _ (after_complete env dto p)))

module _ (alias : String) (env : Services) (dto : SipCallbackDto) (p : Payment)
    (sent : List TopUpRequest) where
  accept_order-Completed :
      Triple
        (λ s. FindsBy (has_order alias) p.id Exists s × HasTopUps sent s)
        (accept_order env dto p)
        (λ _. FindsBy (has_order alias) p.id Completed)
        (Safe alias p.id sent)
  unfolding accept_order
  accept_order-Completed =
      Triple-bind (λ _. FindsBy (has_order alias) p.id Completed) (complete_sip_payment p.id dto) _
        (Safe-complete alias p.id dto sent) (λ a. Safe-after alias p.id env dto p sent)

  -- The checks send nothing, and leave the order where it is.
  abbrev pub Open : Store → Type 0
  Open s = FindsBy (has_order alias) p.id Exists s × HasTopUps sent s

  mark_failed-Open : (reason : FailureReason) → Keeps Open (mark_failed p.id reason)
  unfolding mark_failed with_failure
  mark_failed-Open reason = record {
    at = λ s h. (
      (update_payment-FindsBy_any (has_order alias) p.id (with_failure reason) (λ p. refl)
            (λ p. refl) p.id Exists (λ p h. tt)).at
          s h.0,
      (update_payment-HasTopUps p.id (with_failure reason) sent).at s h.1,
    );
  }

  check_amount-Open : (n : Number) (monto : Option String) → Keeps Open (check_amount n p monto)
  unfolding check_amount
  check_amount-Open n none = search keeps_rules
  check_amount-Open n (some monto) = search (keeps_rules, mark_failed-Open)

  check_currency-Open : (moneda : Option String) → Keeps Open (check_currency p moneda)
  unfolding check_currency
  check_currency-Open none = search keeps_rules
  check_currency-Open (some moneda) = search (keeps_rules, mark_failed-Open)

  check-Open :
      {A : Type 0} (m : Action Store A)
      → Keeps Open m
      → Triple Open m (λ _. Open) (Safe alias p.id sent)
  check-Open m k =
      Triple-weaken Open (Safe alias p.id sent) m (λ s h. inl h.1) (Triple-of_Keeps Open m k)

  pub settle_order-Completed :
      (n : Number)
      → Triple Open
          (settle_order env n dto p)
          (λ _. FindsBy (has_order alias) p.id Completed)
          (Safe alias p.id sent)
  unfolding settle_order
  settle_order-Completed n =
      Triple-bind _ (check_amount n p dto.monto) _ (check-Open _ (check_amount-Open n dto.monto))
        (λ a.
          Triple-bind _ (check_currency p dto.moneda) _
            (check-Open _ (check_currency-Open dto.moneda)) (λ b. accept_order-Completed))
