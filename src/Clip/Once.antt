-- ===== src/Clip/Once.antt =====
-- Webhooks for a payment: one that completes it, and one for a payment with a recorded top-up.
use banking_mobile_backend.Prelude.{
  ℕ, String, ◌≡◌, refl, sym, ap, ◌∙◌, true, false, none, some, List, ◌∷◌, Bool-cases, Option-cases,
  inl, inr, arith, find, ok, err, conflict, not_found, Result, ◌>>=◌, try_finally,
}
use banking_mobile_backend.Prelude.Keeps.{Keeps, keeps_rules}
use banking_mobile_backend.Prelude.Triple.{Outcome}
use banking_mobile_backend.Payments.{
  Payment, PaymentStatus, completed, clip, ProviderPayment, ClipWebhookPayload, TopUpRequest,
}
use banking_mobile_backend.Payments.Services.{Store, Services, Account, Call, top_ups, ask}
use banking_mobile_backend.Payments.Utils.{extract_clip_webhook_payment_id}
use banking_mobile_backend.Payments.Repository.{
  has_provider_id, is_held, get_payment_by_provider_payment_id, acquire_payment_lock,
  release_payment_lock, merge_webhook_processing_result,
}
use banking_mobile_backend.Payments.Effects.{
  HasTopUps, update_payment-HasTopUps, send_proof-HasTopUps,
}
use banking_mobile_backend.Clip.Webhook.{
  has_completed_topup, settle_without_topup, settle_completed, settle, confirm, locked_webhook,
  handle_found, handle_clip_webhook, ProcessResponse,
}
use banking_mobile_backend.Payments.Lookup.{Finds}
use banking_mobile_backend.Clip.Credit.{IsCredited, CreditedIfCompleted, confirm-credits}

module _ (env : Services) (key : String) (payload : ClipWebhookPayload) where
  module _ (sent : List TopUpRequest) where
    ask_details-HasTopUps :
        Keeps (HasTopUps sent) (ask env.payment_details Call.payment_details key)
    unfolding ask
    ask_details-HasTopUps = record { at = λ s h. h }

    settle-HasTopUps :
        (status : PaymentStatus) (provider : ProviderPayment) (p : Payment) (user : Account)
        → IsCredited p
        → Keeps (HasTopUps sent) (settle env key payload status provider p user)
    unfolding settle settle_completed settle_without_topup merge_webhook_processing_result
    settle-HasTopUps PaymentStatus.completed provider p user h =
        rw h (search (keeps_rules, update_payment-HasTopUps))
    settle-HasTopUps _ provider p user h =
        search (keeps_rules, update_payment-HasTopUps, send_proof-HasTopUps)

    confirm-HasTopUps :
        (p : Payment) → IsCredited p → Keeps (HasTopUps sent) (confirm env key payload p)
    unfolding confirm
    confirm-HasTopUps p h =
        search
          (
            keeps_rules,
            ask_details-HasTopUps,
            λ (status : PaymentStatus) (provider : ProviderPayment) (user : Account).
                settle-HasTopUps status provider p user h,
          )
          depth 12

  -- What the webhook does once the lock is held: it reads the row again, which is the same one.
  locked_webhook-confirm :
      (p : Payment) (s : Store)
      → find (has_provider_id clip key) s.payments ≡ some p
      → locked_webhook env key payload s ≡ confirm env key payload p s
  unfolding locked_webhook get_payment_by_provider_payment_id ◌>>=◌
  locked_webhook-confirm p s e = rw (e, ◌>>=◌)

  abbrev pub holding : Payment → Store → Store
  holding p s = record s {
    locks = record { name = p.idempotency_key; session = env.acquire_session } ∷ s.locks;
  }

  -- With the lock free, the row is settled while the lock is held, and the lock is given back.
  pub handle_found-free :
      (p : Payment) (s : Store)
      → find (has_provider_id clip key) s.payments ≡ some p
      → is_held env.acquire_session p.idempotency_key s.locks ≡ false
      → handle_found env key payload p s ≡ (
          let (r, s') = confirm env key payload p (holding p s) in
          (r, (release_payment_lock env.release_session p.idempotency_key s').1))
  unfolding handle_found acquire_payment_lock release_payment_lock try_finally ◌>>=◌
  handle_found-free p s e free = rw (free, locked_webhook-confirm p (holding p s) e) refl

  pub handle_found-held :
      (p : Payment) (s : Store)
      → is_held env.acquire_session p.idempotency_key s.locks ≡ true
      → handle_found env key payload p s
        ≡ (err (conflict "Clip webhook is already being processed"), s)
  unfolding handle_found acquire_payment_lock ◌>>=◌
  handle_found-held p s held = rw (held, ◌>>=◌)

  pub handle-found :
      (p : Payment) (s : Store)
      → extract_clip_webhook_payment_id payload ≡ some key
      → find (has_provider_id clip key) s.payments ≡ some p
      → handle_clip_webhook env payload s ≡ handle_found env key payload p s
  unfolding handle_clip_webhook get_payment_by_provider_payment_id ◌>>=◌
  handle-found p s named e = rw (named, ◌>>=◌) (rw (e, ◌>>=◌))

  pub handle-missing :
      (s : Store)
      → extract_clip_webhook_payment_id payload ≡ some key
      → find (has_provider_id clip key) s.payments ≡ none
      → handle_clip_webhook env payload s
        ≡ (err (not_found "Payment not found for Clip webhook"), s)
  unfolding handle_clip_webhook get_payment_by_provider_payment_id ◌>>=◌
  handle-missing s named e = rw (named, ◌>>=◌) (rw (e, ◌>>=◌))

-- A webhook for a payment whose top-up is recorded as completed sends no top-up, on every outcome.
pub handle_clip_webhook-top_ups :
    (env : Services) (key : String) (payload : ClipWebhookPayload) (p : Payment) (s : Store)
    → extract_clip_webhook_payment_id payload ≡ some key
    → find (has_provider_id clip key) s.payments ≡ some p
    → has_completed_topup p.response_payload ≡ true
    → top_ups (handle_clip_webhook env payload s).1.calls ≡ top_ups s.calls
unfolding release_payment_lock
handle_clip_webhook-top_ups env key payload p s named e credited =
    elim (Bool-cases (is_held env.acquire_session p.idempotency_key s.locks)) [
      | inl held ↦
          rw (handle-found env key payload p s named e, handle_found-held env key payload p s held)
      | inr free ↦
          rw
            (handle-found env key payload p s named e, handle_found-free env key payload p s e free)
            ((confirm-HasTopUps env key payload (top_ups s.calls) p credited).at
              (holding env key payload p s) refl)
    ]

module _ (key name : String) (session id : ℕ) {r : ProcessResponse} {s' : Store} where
  IsCredited-after :
      (x : Result ProcessResponse) (u : Store)
      → Outcome (CreditedIfCompleted key id) (λ _. Unit {0}) (x, u)
      → x ≡ ok r
      → (release_payment_lock session name u).1 ≡ s'
      → r.status ≡ completed
      → Finds key id IsCredited s'
  unfolding release_payment_lock
  IsCredited-after (ok a) u h same final done =
      let f = h (ground arith) in
      rw (← final) (record { row = f.row; found = f.found; same_id = f.same_id; holds = f.holds })
  IsCredited-after (err e) u h same final done = cc

-- When the webhook answers that the payment is completed, the row that its identifier finds
-- records a completed top-up.
pub handle_clip_webhook-credits :
    (env : Services) (key : String) (payload : ClipWebhookPayload) (s : Store) {r : ProcessResponse}
    {s' : Store}
    → extract_clip_webhook_payment_id payload ≡ some key
    → handle_clip_webhook env payload s ≡ (ok r, s')
    → r.status ≡ completed
    → (p : Payment) × (find (has_provider_id clip key) s'.payments ≡ some p)
      × (has_completed_topup p.response_payload ≡ true)
handle_clip_webhook-credits env key payload s named run done =
    elim (Option-cases (find (has_provider_id clip key) s.payments)) [
      | inl missing ↦ cc (handle-missing env key payload s named missing, run)
      | inr (p, e) ↦ elim (Bool-cases (is_held env.acquire_session p.idempotency_key s.locks)) [
        | inl held ↦ cc (
          handle-found env key payload p s named e,
          handle_found-held env key payload p s held,
          run,
        )
        | inr free ↦
            let (x, u) = confirm env key payload p (holding env key payload p s) in
            let ran =
              sym (handle_found-free env key payload p s e free)
              ∙ sym (handle-found env key payload p s named e)
              ∙ run in
            let f =
              IsCredited-after key p.idempotency_key env.release_session p.id x u
                ((confirm-credits env key payload p).at (holding env key payload p s)
                  (record { row = p; found = e; same_id = refl; holds = refl }))
                (ap (λ t. t.0) ran) (ap (λ t. t.1) ran) done in
            (f.row, f.found, f.holds)
      ]
    ]
