-- ===== src/Clip/Confirmed.antt =====
-- What the webhook sends to the wallet: at most one top-up, and only for a payment that the
-- provider itself reports as paid.
use banking_mobile_backend.Prelude.{
  ℕ, String, ◌≡◌, refl, inl, inr, List, ◌∷◌, Error, Result-cases, ok, Bool-cases, find, ◌>>=◌, ◌>>◌,
  try_catch, conflict, some, Action, or_throw, type_error,
}
use banking_mobile_backend.Prelude.Keeps.{Keeps, keeps_rules}
use banking_mobile_backend.Prelude.Triple.{
  Triple, Triple-bind, Triple-of_Keeps, Triple-weaken, Triple-after, Triple-both, Triple-try_catch,
}
use banking_mobile_backend.Payments.{
  Payment, PaymentStatus, completed, clip, ProviderPayment, ClipWebhookPayload, TopUpRequest,
}
use banking_mobile_backend.Payments.Utils.{
  map_clip_status_to_internal, extract_clip_webhook_payment_id,
}
use banking_mobile_backend.Payments.Topup.{build_topup_request_from_payment}
use banking_mobile_backend.Payments.Services.{Store, Services, Account, Call, Push, top_ups, ask}
use banking_mobile_backend.Payments.Repository.{
  has_provider_id, is_held, release_payment_lock, merge_webhook_processing_result,
}
use banking_mobile_backend.Payments.Effects.{
  HasTopUps, update_payment-HasTopUps, send_proof-HasTopUps,
}
use banking_mobile_backend.Clip.Once.{holding, handle-found, handle_found-free, handle_found-held}
use banking_mobile_backend.Clip.Webhook.{
  has_completed_topup, settle_without_topup, settle_completed, settle, confirm, credit,
  top_up_and_record, on_topup_error, handle_clip_webhook,
}

-- An action that sends nothing or the one request of the payment.
pub data Sends (paid : Type 0) (p : Payment) (user : Account) (sent : List TopUpRequest) (s : Store)
    : Type 0 where
  nothing : top_ups s.calls ≡ sent → Sends paid p user sent s
  topped_up :
      paid
      → (request : TopUpRequest) → build_topup_request_from_payment p user ≡ ok request
      → top_ups s.calls ≡ request ∷ sent
      → Sends paid p user sent s

-- The provider has answered for the key that the payment is paid.
abbrev pub Reported : Services → String → List Call → Type 0
Reported env key calls =
    (provider : ProviderPayment) × (env.payment_details calls key ≡ ok provider)
    × (map_clip_status_to_internal (some provider.status) ≡ completed)

module _ (env : Services) (key : String) (payload : ClipWebhookPayload) where
  module _ (sent : List TopUpRequest) where
    push-HasTopUps : (q : Push) → Keeps (HasTopUps sent) (ask env.notify Call.push q)
    unfolding ask
    push-HasTopUps q = record { at = λ s h. h }

    on_topup_error-HasTopUps :
        (provider : ProviderPayment) (p : Payment) (request : TopUpRequest) (e : Error)
        → Keeps (HasTopUps sent) (on_topup_error env key payload provider p request e)
    unfolding on_topup_error merge_webhook_processing_result
    on_topup_error-HasTopUps provider p request (conflict m) =
        search (keeps_rules, update_payment-HasTopUps)
    on_topup_error-HasTopUps provider p request _ = search (keeps_rules, update_payment-HasTopUps)

    settle_without_topup-HasTopUps :
        (status : PaymentStatus) (provider : ProviderPayment) (p : Payment) (user : Account)
        → Keeps (HasTopUps sent) (settle_without_topup env key payload status provider p user)
    unfolding settle_without_topup merge_webhook_processing_result
    settle_without_topup-HasTopUps status provider p user =
        search (keeps_rules, update_payment-HasTopUps, send_proof-HasTopUps)

  module _ (sent : List TopUpRequest) where
    ask_top_up :
        (request : TopUpRequest)
        → Triple
            (HasTopUps sent)
            (ask env.top_up Call.top_up request)
            (λ _. HasTopUps (request ∷ sent))
            (HasTopUps (request ∷ sent))
    unfolding ask
    ask_top_up request =
        Triple-both (HasTopUps sent) (ask env.top_up Call.top_up request)
          (HasTopUps (request ∷ sent)) (λ s h. rw h refl)

    after_top_up :
        (provider : ProviderPayment) (p : Payment) (user : Account) (request : TopUpRequest)
        → Triple
            (HasTopUps sent)
            (try_catch
              (top_up_and_record env key payload provider p user request)
              (on_topup_error env key payload provider p request))
            (λ _. HasTopUps (request ∷ sent))
            (HasTopUps (request ∷ sent))
    unfolding top_up_and_record merge_webhook_processing_result
    after_top_up provider p user request =
        Triple-try_catch (λ _. HasTopUps (request ∷ sent)) (HasTopUps (request ∷ sent))
          (top_up_and_record env key payload provider p user request)
          (on_topup_error env key payload provider p request)
          (Triple-bind (λ _. HasTopUps (request ∷ sent)) (ask env.top_up Call.top_up request) _
            (ask_top_up request)
            (λ a. Triple-of_Keeps (HasTopUps (request ∷ sent)) _ (
              search (keeps_rules, update_payment-HasTopUps, send_proof-HasTopUps, push-HasTopUps)
                depth 12)))
          (λ e.
            Triple-of_Keeps (HasTopUps (request ∷ sent))
              (on_topup_error env key payload provider p request e)
              (on_topup_error-HasTopUps (request ∷ sent) provider p request e))

  module _ (paid : Type 0) (p : Payment) (user : Account) (sent : List TopUpRequest) where
    abbrev Sending : {A : Type 0} → Action Store A → Type 0
    Sending m = Triple (HasTopUps sent) m (λ _. Sends paid p user sent) (Sends paid p user sent)

    Sending-of_Keeps : {A : Type 0} (m : Action Store A) → Keeps (HasTopUps sent) m → Sending m
    Sending-of_Keeps m k =
        Triple-both (HasTopUps sent) m (Sends paid p user sent) (λ s h. nothing (k.at s h))

    Sending-bind :
        {A B : Type 0} (m : Action Store A) (f : A → Action Store B)
        → Keeps (HasTopUps sent) m
        → ((a : A) → Sending (f a))
        → Sending (m >>= f)
    Sending-bind m f k h =
        Triple-bind (λ _. Sends paid p user sent) m f
          (Triple-weaken (HasTopUps sent) (Sends paid p user sent) m (λ s x. nothing x)
            (Triple-of_Keeps (HasTopUps sent) m k))
          h

    credit-Sends :
        paid → (provider : ProviderPayment) → Sending (credit env key payload provider p user)
    unfolding credit ◌>>=◌
    credit-Sends reported provider = Triple-both (HasTopUps sent) _ (Sends paid p user sent) (λ s h.
        elim (Result-cases (build_topup_request_from_payment p user)) [
          | inl (e, failed) ↦ rw (failed, ◌>>=◌) (nothing h)
          | inr (request, built) ↦
              rw (built, ◌>>=◌)
                (topped_up reported request built (
                  Triple-after (HasTopUps (request ∷ sent)) _
                    (after_top_up sent provider p user request) s h))
        ])

    settle_completed-Sends :
        paid
        → (provider : ProviderPayment) → Sending (settle_completed env key payload provider p user)
    unfolding settle_completed merge_webhook_processing_result
    settle_completed-Sends reported provider =
        Sending-bind _ _ (update_payment-HasTopUps _ _ sent) (λ a.
          elim (Bool-cases (has_completed_topup p.response_payload)) [
            | inl done ↦ rw done (Sending-of_Keeps _ (search keeps_rules))
            | inr open' ↦ rw open' (credit-Sends reported provider)
          ])

  module _ (p : Payment) (user : Account) (sent : List TopUpRequest) where
    settle-Sends :
        (status : PaymentStatus) (provider : ProviderPayment)
        → Sending (status ≡ completed) p user sent (settle env key payload status provider p user)
    unfolding settle
    settle-Sends PaymentStatus.completed provider =
        settle_completed-Sends (PaymentStatus.completed ≡ completed) p user sent refl provider
    settle-Sends status provider =
        Sending-of_Keeps (status ≡ completed) p user sent _
          (settle_without_topup-HasTopUps sent status provider p user)

    weaken : {P Q : Type 0} {s : Store} → (P → Q) → Sends P p user sent s → Sends Q p user sent s
    weaken f (nothing h) = nothing h
    weaken f (topped_up x request built h) = topped_up (f x) request built h

    answered :
        (provider : ProviderPayment)
        → Sending (map_clip_status_to_internal (some provider.status) ≡ completed) p user sent (
            or_throw provider.customer (type_error "customer is undefined")
            >> settle env key payload
                (map_clip_status_to_internal (some provider.status))
                provider
                p
                user)
    answered provider =
        Sending-bind _ p user sent (or_throw provider.customer (type_error "customer is undefined"))
          _ (search keeps_rules)
          (λ c. settle-Sends (map_clip_status_to_internal (some provider.status)) provider)

    confirm-Sends :
        (s : Store)
        → s.accounts p.user_id ≡ user
        → top_ups s.calls ≡ sent
        → Sends (Reported env key s.calls) p user sent (confirm env key payload p s).1
    unfolding confirm ask ◌>>=◌
    confirm-Sends s same h = elim (Result-cases (env.payment_details s.calls key)) [
      | inl (e, failed) ↦ rw (failed, ◌>>=◌) (nothing h)
      | inr (provider, ok') ↦
          rw (ok', same, ◌>>=◌)
            (weaken (λ paid. (provider, refl, paid))
              (Triple-after (Sends _ p user sent) _ (answered provider)
                (record s { calls = Call.payment_details key ∷ s.calls }) h))
    ]

unlocked :
    (session : ℕ) (paid : Type 0) (p : Payment) (user : Account) (sent : List TopUpRequest)
    (s : Store)
    → Sends paid p user sent s
    → Sends paid p user sent (release_payment_lock session p.idempotency_key s).1
unfolding release_payment_lock
unlocked session paid p user sent s (nothing h) = nothing h
unlocked session paid p user sent s (topped_up x request built h) = topped_up x request built h

-- The webhook of a payment sends no top-up, or one: that of the payment's row and of the account of
-- its user, and then the provider, asked for the payment, has answered that it is paid. This holds on
-- every outcome, an error included, and whatever status the webhook's body states.
pub handle_clip_webhook-Sends :
    (env : Services) (key : String) (payload : ClipWebhookPayload) (p : Payment) (s : Store)
    → extract_clip_webhook_payment_id payload ≡ some key
    → find (has_provider_id clip key) s.payments ≡ some p
    → Sends
        (Reported env key s.calls)
        p
        (s.accounts p.user_id)
        (top_ups s.calls)
        (handle_clip_webhook env payload s).1
unfolding release_payment_lock
handle_clip_webhook-Sends env key payload p s named e =
    elim (Bool-cases (is_held env.acquire_session p.idempotency_key s.locks)) [
      | inl held ↦
          rw (handle-found env key payload p s named e, handle_found-held env key payload p s held)
            (nothing refl)
      | inr free ↦
          rw
            (handle-found env key payload p s named e, handle_found-free env key payload p s e free)
            (unlocked env.release_session _ p (s.accounts p.user_id) (top_ups s.calls) _ (
              confirm-Sends env key payload p (s.accounts p.user_id) (top_ups s.calls)
                (holding env key payload p s) refl refl))
    ]
