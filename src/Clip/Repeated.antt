-- ===== src/Clip/Repeated.antt =====
-- Webhooks of a payment after one that answered that it is completed.
use banking_mobile_backend.Prelude.{
  ℕ, String, ◌≡◌, refl, ◌∙◌, some, none, Option, List, Result, Bool-cases, inl, inr, arith, find,
  ok,
}
use banking_mobile_backend.Prelude.Keeps.{Keeps, keeps_rules}
use banking_mobile_backend.Prelude.Triple.{Triple-after}
use banking_mobile_backend.Payments.{
  Payment, PaymentStatus, completed, clip, ProviderPayment, ClipWebhookPayload,
}
use banking_mobile_backend.Payments.Services.{
  Store, Services, Account, Call, top_ups, ask, send_proof,
}
use banking_mobile_backend.Payments.Utils.{extract_clip_webhook_payment_id}
use banking_mobile_backend.Payments.Repository.{
  has_provider_id, is_held, release_payment_lock, merged, merge_webhook_processing_result,
}
use banking_mobile_backend.Payments.Lookup.{Finds, merge-Finds}
use banking_mobile_backend.Clip.Webhook.{
  ProcessResponse, has_completed_topup, settle_without_topup, settle_completed, settle, confirm,
  handle_clip_webhook,
}
use banking_mobile_backend.Clip.Credit.{IsCredited}
use banking_mobile_backend.Clip.Once.{
  holding, handle-found, handle_found-free, handle_found-held, handle_clip_webhook-top_ups,
  handle_clip_webhook-credits,
}

-- The row that the provider's id finds records a completed top-up.
pub record HasCredit (key : String) (s : Store) : Type 0 where
  pub row : Payment
  pub found : find (has_provider_id clip key) s.payments ≡ some row
  pub credited : IsCredited row

module _ (key : String) (id : ℕ) where
  abbrev Credited : Store → Type 0
  Credited = Finds key id IsCredited

  ask-Credited :
      {Q A : Type 0} (answer : List Call → Q → Result A) (tag : Q → Call) (q : Q)
      → Keeps Credited (ask answer tag q)
  unfolding ask
  ask-Credited answer tag q = record {
    at = λ s h. record { row = h.row; found = h.found; same_id = h.same_id; holds = h.holds };
  }

  send_proof-Credited : (kind email : String) → Keeps Credited (send_proof kind email)
  unfolding send_proof
  send_proof-Credited kind email = record {
    at = λ s h. record { row = h.row; found = h.found; same_id = h.same_id; holds = h.holds };
  }

  merged-IsCredited :
      (status : PaymentStatus) (provider : Option ProviderPayment)
      (webhook : Option ClipWebhookPayload) (p : Payment)
      → IsCredited p
      → IsCredited (merged status provider webhook none p)
  unfolding merged has_completed_topup
  merged-IsCredited status provider webhook p h = ground arith

  -- A merge with no top-up of its own keeps the one that is stored.
  merge-Credited :
      (status : PaymentStatus) (provider : Option ProviderPayment)
      (webhook : Option ClipWebhookPayload)
      → Keeps Credited (merge_webhook_processing_result id status provider webhook none)
  merge-Credited status provider webhook = record {
    at = Triple-after Credited (merge_webhook_processing_result id status provider webhook none) (
        merge-Finds key id status provider webhook none IsCredited IsCredited
          (merged-IsCredited status provider webhook));
  }

module _ (env : Services) (key : String) (payload : ClipWebhookPayload) (p : Payment)
    (credited : IsCredited p) where
  settle-Credited :
      (status : PaymentStatus) (provider : ProviderPayment) (user : Account)
      → Keeps (Credited key p.id) (settle env key payload status provider p user)
  unfolding settle settle_completed settle_without_topup
  settle-Credited PaymentStatus.completed provider user =
      rw credited (search (keeps_rules, merge-Credited))
  settle-Credited _ provider user = search (keeps_rules, merge-Credited, send_proof-Credited)

  confirm-Credited : Keeps (Credited key p.id) (confirm env key payload p)
  unfolding confirm
  confirm-Credited = search (keeps_rules, ask-Credited, settle-Credited) depth 12

released :
    (session : ℕ) (name key : String) (id : ℕ) (s : Store)
    → Finds key id IsCredited s
    → HasCredit key (release_payment_lock session name s).1
unfolding release_payment_lock
released session name key id s h = record { row = h.row; found = h.found; credited = h.holds }

-- A webhook for a payment whose top-up is recorded keeps the record, on every outcome.
webhook-HasCredit :
    (env : Services) (key : String) (payload : ClipWebhookPayload) (s : Store)
    → extract_clip_webhook_payment_id payload ≡ some key
    → HasCredit key s
    → HasCredit key (handle_clip_webhook env payload s).1
webhook-HasCredit env key payload s named h =
    let p = h.row in
    elim (Bool-cases (is_held env.acquire_session p.idempotency_key s.locks)) [
      | inl held ↦
          rw
            (
              handle-found env key payload p s named h.found,
              handle_found-held env key payload p s held,
            )
            h
      | inr free ↦
          rw
            (
              handle-found env key payload p s named h.found,
              handle_found-free env key payload p s h.found free,
            )
            (released env.release_session p.idempotency_key key p.id _ (
              (confirm-Credited env key payload p h.credited).at (holding env key payload p s)
                (record { row = p; found = h.found; same_id = refl; holds = h.credited })))
    ]

-- Webhooks for the payment of a provider's id, whatever else they say and whatever the services
-- answer, between any changes of the state that leave the payment's row as it is.
pub data Webhooks (key : String) (s : Store) : Store → Type 0 where
  none_yet : Webhooks key s s
  webhook :
      {t : Store} (env : Services) (payload : ClipWebhookPayload)
      → extract_clip_webhook_payment_id payload ≡ some key
      → Webhooks key s t
      → Webhooks key s (handle_clip_webhook env payload t).1
  between :
      {t : Store} (u : Store)
      → find (has_provider_id clip key) u.payments ≡ find (has_provider_id clip key) t.payments
      → Webhooks key s t
      → Webhooks key s u

Webhooks-HasCredit :
    (key : String) (s t : Store) → Webhooks key s t → HasCredit key s → HasCredit key t
Webhooks-HasCredit key s _ none_yet h = h
Webhooks-HasCredit key s _ (webhook {t} env payload named steps) h =
    webhook-HasCredit env key payload t named (Webhooks-HasCredit key s t steps h)
Webhooks-HasCredit key s _ (between {t} u same steps) h =
    let k = Webhooks-HasCredit key s t steps h in
    record { row = k.row; found = same ∙ k.found; credited = k.credited }

-- After a webhook has answered that the payment is completed, and after any further webhooks for
-- the payment with any changes in between that leave its row as it is, the next webhook for the
-- payment, whatever it says and whatever the services answer, sends no top-up. Nothing is said of
-- changes of the row by other operations: a verification of the payment is one.
pub handle_clip_webhook-once :
    (env later : Services) (key : String) (payload again : ClipWebhookPayload) (s t : Store)
    {r : ProcessResponse} {s' : Store}
    → extract_clip_webhook_payment_id payload ≡ some key
    → extract_clip_webhook_payment_id again ≡ some key
    → handle_clip_webhook env payload s ≡ (ok r, s')
    → r.status ≡ completed
    → Webhooks key s' t
    → top_ups (handle_clip_webhook later again t).1.calls ≡ top_ups t.calls
handle_clip_webhook-once env later key payload again s t {s' = s'} named named_again run done
      steps =
    let (p, found, credited) = handle_clip_webhook-credits env key payload s named run done in
    let h =
      Webhooks-HasCredit key s' t steps (record { row = p; found = found; credited = credited }) in
    handle_clip_webhook-top_ups later key again h.row t named_again h.found h.credited
