-- ===== src/Sip/Delivery.antt =====
-- A callback that is delivered again: once the wallet has been asked, or the callback has been
-- acknowledged, it has no effect.
use mathlib.Core.Path.{subst}
use banking_mobile_backend.Prelude.{
  ℕ, ◌≡◌, ◌≢◌, refl, ◌⊎◌, inl, inr, true, false, none, some, List, Bool-cases, Option-cases, find,
  ok, err, Result, ◌>>=◌, not_found,
}
use banking_mobile_backend.Prelude.Triple.{Outcome, Triple-weaken, Triple-map}
use banking_mobile_backend.Payments.{Payment, is_completed, SipCallbackDto, TopUpRequest}
use banking_mobile_backend.Payments.Fees.{Number}
use banking_mobile_backend.Payments.Services.{Store, Services, top_ups}
use banking_mobile_backend.Payments.Effects.{HasTopUps}
use banking_mobile_backend.Payments.Rows.{FindsBy}
use banking_mobile_backend.Sip.{has_order, find_by_order_id}
use banking_mobile_backend.Sip.Callback.{SipAckResponse, ack, settle_order, handle_sip_callback}
use banking_mobile_backend.Sip.Replay.{Completed, Safe, settle_order-Completed}

module _ (env : Services) (n : Number) (dto : SipCallbackDto) where
  handle-missing :
      (s : Store)
      → find (has_order dto.alias) s.payments ≡ none
      → handle_sip_callback env n dto s ≡ (err (not_found "Payment not found for alias"), s)
  unfolding handle_sip_callback find_by_order_id ◌>>=◌
  handle-missing s missing = rw (missing, ◌>>=◌)

  handle-completed :
      (s : Store) (p : Payment)
      → find (has_order dto.alias) s.payments ≡ some p
      → is_completed p.status ≡ true
      → handle_sip_callback env n dto s ≡ (ok ack, s)
  unfolding handle_sip_callback find_by_order_id ◌>>=◌
  handle-completed s p found done = rw (found, done, ◌>>=◌)

  pub handle-open :
      (s : Store) (p : Payment)
      → find (has_order dto.alias) s.payments ≡ some p
      → is_completed p.status ≡ false
      → handle_sip_callback env n dto s ≡ settle_order env n dto p s
  unfolding handle_sip_callback find_by_order_id ◌>>=◌
  handle-open s p found open' = rw (found, open', ◌>>=◌)

  -- However a callback ends, the wallet was not asked, or the order is completed; and it is completed
  -- after an acknowledgement.
  abbrev Settled : SipAckResponse → Store → Type 0
  Settled r s = (p : Payment) × (find (has_order dto.alias) s.payments ≡ some p) × Completed p

  abbrev Unsent : List TopUpRequest → Store → Type 0
  Unsent sent s = HasTopUps sent s ⊎ Settled ack s

  Settled-of : {id : ℕ} (s : Store) → FindsBy (has_order dto.alias) id Completed s → Settled ack s
  Settled-of s h = (h.row, h.found, h.holds)

  Unsent-of :
      {id : ℕ} (sent : List TopUpRequest) (s : Store) → Safe dto.alias id sent s → Unsent sent s
  Unsent-of sent s (inl h) = inl h
  Unsent-of sent s (inr h) = inr (Settled-of s h)

  handle-Settled :
      (s : Store) → Outcome Settled (Unsent (top_ups s.calls)) (handle_sip_callback env n dto s)
  handle-Settled s = elim (Option-cases (find (has_order dto.alias) s.payments)) [
    | inl missing ↦ rw (handle-missing s missing) (inl refl)
    | inr (p, found) ↦ elim (Bool-cases (is_completed p.status)) [
      | inl done ↦ rw (handle-completed s p found done) (p, found, done)
      | inr open' ↦ rw (handle-open s p found open') (
          (Triple-weaken (Safe dto.alias p.id (top_ups s.calls)) (Unsent (top_ups s.calls)) _
              (Unsent-of (top_ups s.calls))
              (Triple-map Settled _ _ (λ a. Settled-of)
                (settle_order-Completed dto.alias env dto p (top_ups s.calls) n))).at
            s (record { row = p; found = found; same_id = refl; holds = tt }, refl))
    ]
  ]

again_acknowledged :
    (later : Services) (n : Number) (dto again : SipCallbackDto) (s : Store)
    → again.alias ≡ dto.alias
    → (p : Payment) × (find (has_order dto.alias) s.payments ≡ some p) × Completed p
    → handle_sip_callback later n again s ≡ (ok ack, s)
again_acknowledged later n dto again s same (p, found, done) =
    handle-completed later n again s p (rw same found) done

sent_once :
    (env later : Services) (n : Number) (dto again : SipCallbackDto) (sent : List TopUpRequest)
    (t : Result SipAckResponse × Store)
    → again.alias ≡ dto.alias
    → Outcome (Settled env n dto) (Unsent env n dto sent) t
    → top_ups t.1.calls ≢ sent
    → handle_sip_callback later n again t.1 ≡ (ok ack, t.1)
sent_once env later n dto again sent (ok r, s) same h more =
    again_acknowledged later n dto again s same h
sent_once env later n dto again sent (err e, s) same (inl h) more = absurd (more h)
sent_once env later n dto again sent (err e, s) same (inr h) more =
    again_acknowledged later n dto again s same h

-- After a callback was acknowledged, every further callback for the order is acknowledged too, and
-- leaves the whole state as it is: no row, transaction or call is added or changed.
pub handle_sip_callback-replay :
    (env later : Services) (n : Number) (dto again : SipCallbackDto) (s : Store)
    {r : SipAckResponse} {s' : Store}
    → again.alias ≡ dto.alias
    → handle_sip_callback env n dto s ≡ (ok r, s')
    → handle_sip_callback later n again s' ≡ (ok ack, s')
handle_sip_callback-replay env later n dto again s {r} {s'} same run =
    again_acknowledged later n dto again s' same (
      subst (Outcome (Settled env n dto) (Unsent env n dto (top_ups s.calls))) run
        (handle-Settled env n dto s))

-- However a callback ended, an error included: if it asked the wallet for a top-up, then every
-- further callback for the order is only acknowledged, so none asks again.
pub handle_sip_callback-once :
    (env later : Services) (n : Number) (dto again : SipCallbackDto) (s : Store)
    → again.alias ≡ dto.alias
    → top_ups (handle_sip_callback env n dto s).1.calls ≢ top_ups s.calls
    → handle_sip_callback later n again (handle_sip_callback env n dto s).1
      ≡ (ok ack, (handle_sip_callback env n dto s).1)
handle_sip_callback-once env later n dto again s same sent =
    sent_once env later n dto again (top_ups s.calls) (handle_sip_callback env n dto s) same
      (handle-Settled env n dto s) sent
