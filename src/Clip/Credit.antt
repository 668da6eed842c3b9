-- ===== src/Clip/Credit.antt =====
-- A payment that the webhook reports as completed is recorded as credited, and a payment that is so
-- recorded is never credited again by the webhook.
use banking_mobile_backend.Prelude.{
  ℕ, String, ◌≡◌, refl, true, Option, none, some, List, Bool-cases, inl, inr, arith, Error, Result,
}
use banking_mobile_backend.Prelude.Keeps.{Keeps, Keeps-lift, Keeps-gets, Keeps-or_throw}
use banking_mobile_backend.Prelude.Triple.{
  Triple, Triple-of_Keeps, Triple-pure, Triple-bind, Triple-try_catch, Triple-weaken,
  Triple-rethrow, Triple-any, Triple-map, Triple-keep,
}
use banking_mobile_backend.Payments.{
  Payment, PaymentStatus, completed, is_completed, ProviderPayment, ClipWebhookPayload,
  TopUpRequest, TopupPayload,
}
use banking_mobile_backend.Payments.Services.{Store, Services, Account, Call, ask, send_proof}
use banking_mobile_backend.Payments.Topup.{build_topup_payload_from_request}
use banking_mobile_backend.Payments.Repository.{merged, merge_webhook_processing_result}
use banking_mobile_backend.Payments.Lookup.{Finds, merge-Finds}
use banking_mobile_backend.Clip.Webhook.{
  ProcessResponse, has_completed_topup, top_up_and_record, on_topup_error, credit,
  settle_without_topup, settle_completed, settle, confirm,
}

abbrev pub IsCredited : Payment → Type 0
IsCredited p = has_completed_topup p.response_payload ≡ true

abbrev pub CreditedIfCompleted : String → ℕ → ProcessResponse → Store → Type 0
CreditedIfCompleted key id r s = r.status ≡ completed → Finds key id IsCredited s

-- The row that was read again under the lock.
abbrev pub IsRow : Payment → Payment → Type 0
IsRow p q = q ≡ p

abbrev Exists : Payment → Type 0
Exists p = Unit {0}

module _ (env : Services) (key : String) (payload : ClipWebhookPayload) where
  module _ (id : ℕ) (P : Payment → Type 0) where
    ask-Finds :
        {Q A : Type 0} (answer : List Call → Q → Result A) (tag : Q → Call) (q : Q)
        → Keeps (Finds key id P) (ask answer tag q)
    unfolding ask
    ask-Finds answer tag q = record {
      at = λ s h. record { row = h.row; found = h.found; same_id = h.same_id; holds = h.holds };
    }

    send_proof-Finds : (kind email : String) → Keeps (Finds key id P) (send_proof kind email)
    unfolding send_proof
    send_proof-Finds kind email = record {
      at = λ s h. record { row = h.row; found = h.found; same_id = h.same_id; holds = h.holds };
    }

  -- Whatever stood in the row, it is credited after a merge with a completed top-up.
  merge-credits :
      (id : ℕ) (provider : Option ProviderPayment) (webhook : Option ClipWebhookPayload)
      (t : TopupPayload)
      → is_completed t.status ≡ true
      → Triple
          (Finds key id Exists)
          (merge_webhook_processing_result id completed provider webhook (some t))
          (λ _. Finds key id IsCredited)
          (Finds key id Exists)
  unfolding merged has_completed_topup
  merge-credits id provider webhook t h =
      merge-Finds key id completed provider webhook (some t) Exists IsCredited (λ p _. h)

  -- A merge with no top-up keeps the one that is stored.
  merged-IsCredited :
      (p : Payment) (provider : ProviderPayment)
      → IsCredited p
      → IsCredited (merged completed (some provider) (some payload) none p)
  unfolding merged has_completed_topup
  merged-IsCredited p provider h = ground arith

  to_Exists : (id : ℕ) (s : Store) → Finds key id IsCredited s → Finds key id Exists s
  to_Exists id s h = record { row = h.row; found = h.found; same_id = h.same_id; holds = tt }

  top_up_and_record-credits :
      (provider : ProviderPayment) (p : Payment) (user : Account) (request : TopUpRequest)
      → Triple
          (Finds key p.id Exists)
          (top_up_and_record env key payload provider p user request)
          (λ _. Finds key p.id IsCredited)
          (Finds key p.id Exists)
  unfolding top_up_and_record build_topup_payload_from_request
  top_up_and_record-credits provider p user request =
      Triple-bind _ _ _ (Triple-of_Keeps _ _ (ask-Finds p.id Exists env.top_up Call.top_up request))
        λ response.
          Triple-bind _ _ _ (merge-credits p.id (some provider) (some payload) _ refl) λ row.
            Triple-weaken _ _ _ (to_Exists p.id) (
              Triple-bind _ _ _
                (Triple-of_Keeps _ _ (send_proof-Finds p.id IsCredited "link" user.email))
                λ u.
                  Triple-bind _ _ _
                    (Triple-of_Keeps _ _ (ask-Finds p.id IsCredited env.notify Call.push _))
                    λ v. Triple-pure _ _ _ _ (λ s h. h))

  on_topup_error-credits :
      (provider : ProviderPayment) (p : Payment) (request : TopUpRequest) (e : Error)
      → Triple
          (Finds key p.id Exists)
          (on_topup_error env key payload provider p request e)
          (λ _. Finds key p.id IsCredited)
          (λ _. Unit {0})
  unfolding on_topup_error build_topup_payload_from_request
  on_topup_error-credits provider p request (Error.conflict m) =
      Triple-bind _ _ _
        (Triple-weaken _ _ _ (λ s h. tt) (merge-credits p.id (some provider) (some payload) _ refl))
        λ row. Triple-pure _ _ _ _ (λ s h. h)
  on_topup_error-credits provider p request _ = Triple-rethrow _ _ _

  credit-credits :
      (provider : ProviderPayment) (p : Payment) (user : Account)
      → Triple
          (Finds key p.id Exists)
          (credit env key payload provider p user)
          (λ _. Finds key p.id IsCredited)
          (λ _. Unit {0})
  unfolding credit
  credit-credits provider p user =
      Triple-bind _ _ _ (Triple-weaken _ _ _ (λ s h. tt) (Triple-of_Keeps _ _ (Keeps-lift _)))
        λ request.
          Triple-try_catch _ _ _ _ (top_up_and_record-credits provider p user request)
            (on_topup_error-credits provider p request)

  settle_completed-credits :
      (provider : ProviderPayment) (p : Payment) (user : Account)
      → Triple
          (Finds key p.id (IsRow p))
          (settle_completed env key payload provider p user)
          (λ _. Finds key p.id IsCredited)
          (λ _. Unit {0})
  unfolding settle_completed
  settle_completed-credits provider p user =
      elim (Bool-cases (has_completed_topup p.response_payload)) [
        | inl done ↦ rw done (
            Triple-bind _ _ _
              (Triple-weaken _ _ _ (λ s h. tt)
                (merge-Finds key p.id completed (some provider) (some payload) none (IsRow p)
                  IsCredited (λ q same. rw same (merged-IsCredited p provider done))))
              λ row. Triple-pure _ _ _ _ (λ s h. h))
        | inr due ↦ rw due (
            Triple-bind _ _ _
              (Triple-weaken _ _ _ (λ s h. tt)
                (merge-Finds key p.id completed (some provider) (some payload) none (IsRow p) Exists
                  (λ q same. tt)))
              λ row. credit-credits provider p user)
      ]

  settle_without_topup-status :
      (P : Store → Type 0) (status : PaymentStatus) (provider : ProviderPayment) (p : Payment)
      (user : Account)
      → Triple P
          (settle_without_topup env key payload status provider p user)
          (λ r _. r.status ≡ status)
          (λ _. Unit {0})
  unfolding settle_without_topup
  settle_without_topup-status P status provider p user =
      Triple-bind _ _ _ (Triple-any _)
        λ row. Triple-bind _ _ _ (Triple-any _) λ sent. Triple-pure _ _ _ _ (λ s h. refl)

  settle-credits :
      (status : PaymentStatus) (provider : ProviderPayment) (p : Payment) (user : Account)
      → Triple
          (Finds key p.id (IsRow p))
          (settle env key payload status provider p user)
          (CreditedIfCompleted key p.id)
          (λ _. Unit {0})
  unfolding settle
  settle-credits PaymentStatus.completed provider p user =
      Triple-map _ _ _ (λ r s h e. h) (settle_completed-credits provider p user)
  settle-credits PaymentStatus.pending provider p user =
      Triple-map _ _ _ (λ r s h e. cc (h)) (settle_without_topup-status _ _ provider p user)
  settle-credits PaymentStatus.processing provider p user =
      Triple-map _ _ _ (λ r s h e. cc (h)) (settle_without_topup-status _ _ provider p user)
  settle-credits PaymentStatus.failed provider p user =
      Triple-map _ _ _ (λ r s h e. cc (h)) (settle_without_topup-status _ _ provider p user)
  settle-credits PaymentStatus.cancelled provider p user =
      Triple-map _ _ _ (λ r s h e. cc (h)) (settle_without_topup-status _ _ provider p user)

  pub confirm-credits :
      (p : Payment)
      → Triple
          (Finds key p.id (IsRow p))
          (confirm env key payload p)
          (CreditedIfCompleted key p.id)
          (λ _. Unit {0})
  unfolding confirm
  confirm-credits p = Triple-bind _ _ _ (Triple-keep (Keeps-gets _)) λ user.
      Triple-bind _ _ _
        (Triple-keep (ask-Finds p.id (IsRow p) env.payment_details Call.payment_details key))
        λ provider.
          Triple-bind _ _ _ (Triple-keep (Keeps-or_throw _ _))
            λ customer. settle-credits _ provider p user
