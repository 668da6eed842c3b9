-- ===== src/Clip/Locks.antt =====
-- The named lock of a payment around a webhook.
use banking_mobile_backend.Prelude.{
  ℕ, String, ◌≡◌, refl, ap, ◌∙◌, ◌⊎◌, true, false, none, some, List, [], ◌∷◌, find, ◌==◌,
  Bool-cases, Option-cases, inl, inr, arith, Error, err, bad_request, str_eq, eq_iff, ◌>>=◌,
  try_finally,
}
use banking_mobile_backend.Prelude.Keeps.{Keeps}
use banking_mobile_backend.Payments.{
  Payment, PaymentStatus, clip, ProviderPayment, ClipWebhookPayload, TopUpRequest,
}
use banking_mobile_backend.Payments.Services.{Store, Services, Account, Lock}
use banking_mobile_backend.Payments.Repository.{
  has_provider_id, is_held, release_name, acquire_payment_lock, release_payment_lock,
  get_payment_by_provider_payment_id, merge_webhook_processing_result,
}
use banking_mobile_backend.Payments.Effects.{HasLocks, lock_rules}
use banking_mobile_backend.Clip.Webhook.{
  top_up_and_record, on_topup_error, credit, settle_without_topup, settle_completed, settle,
  confirm, locked_webhook, handle_found, handle_clip_webhook,
}
use banking_mobile_backend.Payments.Utils.{extract_clip_webhook_payment_id}
use banking_mobile_backend.Clip.Once.{handle-found, handle-missing, handle_found-held}

module _ (env : Services) (key : String) (payload : ClipWebhookPayload) (locks : List Lock) where
  settle_without_topup-HasLocks :
      (status : PaymentStatus) (provider : ProviderPayment) (p : Payment) (user : Account)
      → Keeps (HasLocks locks) (settle_without_topup env key payload status provider p user)
  unfolding settle_without_topup merge_webhook_processing_result
  settle_without_topup-HasLocks status provider p user = search lock_rules

  on_topup_error-HasLocks :
      (provider : ProviderPayment) (p : Payment) (request : TopUpRequest) (e : Error)
      → Keeps (HasLocks locks) (on_topup_error env key payload provider p request e)
  unfolding on_topup_error merge_webhook_processing_result
  on_topup_error-HasLocks provider p request (Error.conflict m) = search lock_rules
  on_topup_error-HasLocks provider p request _ = search lock_rules

  credit-HasLocks :
      (provider : ProviderPayment) (p : Payment) (user : Account)
      → Keeps (HasLocks locks) (credit env key payload provider p user)
  unfolding credit top_up_and_record merge_webhook_processing_result
  credit-HasLocks provider p user = search (lock_rules, on_topup_error-HasLocks) depth 9

  settle-HasLocks :
      (status : PaymentStatus) (provider : ProviderPayment) (p : Payment) (user : Account)
      → Keeps (HasLocks locks) (settle env key payload status provider p user)
  unfolding settle settle_completed merge_webhook_processing_result
  settle-HasLocks PaymentStatus.completed provider p user = search (lock_rules, credit-HasLocks)
  settle-HasLocks _ provider p user = search settle_without_topup-HasLocks

  locked_webhook-HasLocks : Keeps (HasLocks locks) (locked_webhook env key payload)
  unfolding confirm locked_webhook get_payment_by_provider_payment_id
  locked_webhook-HasLocks = search (lock_rules, settle-HasLocks) depth 12

str_eq_refl : (name : String) → str_eq name name ≡ true
str_eq_refl name = ground (arith, eq_iff name name)

-- Another session has no lock of the name, when the name is free for a session.
release_name-other :
    (mine other : ℕ) (name : String) (locks : List Lock)
    → is_held mine name locks ≡ false
    → (mine == other) ≡ false
    → release_name other name locks ≡ locks
release_name-other mine other name [] free apart = refl
release_name-other mine other name (l ∷ ls) free apart =
    ground (arith, release_name-other mine other name ls)

module _ (env : Services) (key : String) (payload : ClipWebhookPayload) (p : Payment) where
  abbrev lock_of : Lock
  lock_of = record { name = p.idempotency_key; session = env.acquire_session }

  release-same :
      (locks : List Lock)
      → (env.acquire_session == env.release_session) ≡ true
      → release_name env.release_session p.idempotency_key (lock_of ∷ locks) ≡ locks
  release-same locks same = rw (same, str_eq_refl p.idempotency_key) refl

  release-other :
      (locks : List Lock)
      → is_held env.acquire_session p.idempotency_key locks ≡ false
      → (env.acquire_session == env.release_session) ≡ false
      → release_name env.release_session p.idempotency_key (lock_of ∷ locks) ≡ lock_of ∷ locks
  release-other locks free apart =
      rw
        (
          apart,
          str_eq_refl p.idempotency_key,
          release_name-other env.acquire_session env.release_session p.idempotency_key locks free
              apart,
        )
        refl

  -- The locks after a webhook whose payment was found.
  handle_found-locks :
      (s : Store)
      → is_held env.acquire_session p.idempotency_key s.locks ≡ false
      → (handle_found env key payload p s).1.locks
        ≡ release_name env.release_session p.idempotency_key (lock_of ∷ s.locks)
  unfolding handle_found acquire_payment_lock release_payment_lock try_finally ◌>>=◌
  handle_found-locks s free =
      let locks = lock_of ∷ s.locks in
      let kept =
        (locked_webhook-HasLocks env key payload locks).at (record s { locks = locks }) refl in
      rw (free, kept) refl

-- A webhook that leaves the lock of its payment: its two queries ran on different sessions, and the
-- lock is still held by the one that took it.
pub record LeavesLock (env : Services) (payload : ClipWebhookPayload) (s after : Store)
    : Type 0 where
  pub key : String
  pub row : Payment
  pub named : extract_clip_webhook_payment_id payload ≡ some key
  pub found : find (has_provider_id clip key) s.payments ≡ some row
  pub apart : (env.acquire_session == env.release_session) ≡ false
  pub left :
      after.locks ≡ record { name = row.idempotency_key; session = env.acquire_session } ∷ s.locks

module _ (env : Services) (payload : ClipWebhookPayload) (s : Store) where
  abbrev after : Store
  after = (handle_clip_webhook env payload s).1

  nameless :
      extract_clip_webhook_payment_id payload ≡ none
      → handle_clip_webhook env payload s
        ≡ (err (bad_request "Clip webhook does not include a payment identifier"), s)
  unfolding handle_clip_webhook ◌>>=◌
  nameless none_named = rw (none_named, ◌>>=◌)

  found-locks :
      (key : String) (p : Payment)
      → extract_clip_webhook_payment_id payload ≡ some key
      → find (has_provider_id clip key) s.payments ≡ some p
      → is_held env.acquire_session p.idempotency_key s.locks ≡ false
      → (after.locks ≡ s.locks) ⊎ LeavesLock env payload s after
  found-locks key p named found free =
      let locks =
        ap (λ t. t.1.locks) (handle-found env key payload p s named found)
        ∙ handle_found-locks env key payload p s free in
      elim (Bool-cases (env.acquire_session == env.release_session)) [
        | inl same ↦ inl (locks ∙ release-same env key payload p s.locks same)
        | inr apart ↦ inr (record {
          key = key;
          row = p;
          named = named;
          found = found;
          apart = apart;
          left = locks ∙ release-other env key payload p s.locks free apart;
        })
      ]

  -- Whatever the webhook's outcome, a result or any error, the locks held after it are those held
  -- before it, or the database was asked for the lock and for its release on different sessions, and
  -- the lock of the payment is left with the session that took it.
  pub handle_clip_webhook-locks : (after.locks ≡ s.locks) ⊎ LeavesLock env payload s after
  handle_clip_webhook-locks = elim (Option-cases (extract_clip_webhook_payment_id payload)) [
    | inl none_named ↦ inl (ap (λ t. t.1.locks) (nameless none_named))
    | inr (key, named) ↦ elim (Option-cases (find (has_provider_id clip key) s.payments)) [
      | inl missing ↦ inl (ap (λ t. t.1.locks) (handle-missing env key payload s named missing))
      | inr (p, found) ↦ elim (Bool-cases (is_held env.acquire_session p.idempotency_key s.locks)) [
        | inl held ↦ inl (
            ap (λ t. t.1.locks)
              (handle-found env key payload p s named found
                ∙ handle_found-held env key payload p s held))
        | inr free ↦ found-locks key p named found free
      ]
    ]
  ]
