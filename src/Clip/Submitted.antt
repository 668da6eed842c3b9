-- ===== src/Clip/Submitted.antt =====
-- What is stored when a payment has been submitted to the provider or verified with it.
use banking_mobile_backend.Prelude.{
  ℕ, String, ◌≡◌, ◌≢◌, refl, sym, ◌∙◌, false, none, some, Bool-cases, Option-cases, inl, inr, arith,
  find, find-update_where, any, ok, err, bad_request, Action, ◌>>=◌, ==_refl, lift,
}
use banking_mobile_backend.Prelude.Triple.{Triple, Triple-bind, Triple-any, Triple-lift, Triple-run}
use banking_mobile_backend.Payments.{
  Payment, PaymentStatus, pending, completed, is_pending, ProviderPayment,
}
use banking_mobile_backend.Payments.Utils.{map_clip_status_to_internal}
use banking_mobile_backend.Payments.Services.{Store, Services}
use banking_mobile_backend.Payments.Repository.{
  has_id, taken, update_payment, with_status, update_payment_status, get_payment_by_id,
}
use banking_mobile_backend.Clip.{
  before_webhook, non_empty, map_clip_status_before_webhook, map_to_client_response, ClientResponse,
  ProcessPaymentRequest, record_and_respond, process_payment, verify_payment_status,
}
use banking_mobile_backend.Clip.Webhook.{has_completed_topup}

before_webhook-ne-completed : (status : PaymentStatus) → before_webhook status ≢ completed
before_webhook-ne-completed status = ground arith

module _ (id : ℕ) where
  -- The row of the id, if it is there, has `P`.
  pub record HasRow (P : Payment → Type 0) (s : Store) : Type 0 where
    pub row : Payment
    pub found : find (has_id id) s.payments ≡ some row
    pub holds : P row

  update_payment-HasRow :
      (f : Payment → Payment) (P : Payment → Type 0)
      → ((p : Payment) → (f p).id ≡ p.id)
      → ((p : Payment) → P (f p))
      → Triple (λ _. Unit {0}) (update_payment id f) (λ _. HasRow P) (λ _. Unit {0})
  unfolding update_payment
  update_payment-HasRow f P keeps step = record {
    at = λ s h. elim (Option-cases (find (has_id id) s.payments)) [
      | inl missing ↦ rw (missing, update_payment) tt
      | inr (p, found) ↦ elim (Bool-cases (any (taken id (f p)) s.payments)) [
        | inl clash ↦ rw (found, clash, update_payment) tt
        | inr free ↦
            rw (found, free, update_payment)
              (record {
                row = f p;
                found =
                    find-update_where (λ (q : Payment). q.id) f keeps id id s.payments
                    ∙ rw (==_refl id, found) refl;
                holds = step p;
              })
      ]
    ];
  }

-- What a stored answer of the provider leaves in the row: the status that is reported to the client,
-- which is never COMPLETED, and a payload in which no top-up is recorded.
pub record IsSubmitted (r : ClientResponse) (p : Payment) : Type 0 where
  pub status : p.status ≡ r.status
  pub not_completed : r.status ≢ completed
  pub no_topup : has_completed_topup p.response_payload ≡ false

client_response-status :
    (payment : ProviderPayment) (status : PaymentStatus) {r : ClientResponse}
    → map_to_client_response payment (some status) ≡ ok r
    → r.status ≡ status
unfolding map_to_client_response
client_response-status payment status h = ground arith

not_pending : (status : PaymentStatus) → status ≢ pending → is_pending status ≡ false
not_pending status h = ground arith

module _ (env : Services) (id : ℕ) where
  abbrev Stored : PaymentStatus → Payment → Type 0
  Stored status p = (p.status ≡ status) × (has_completed_topup p.response_payload ≡ false)

  store-HasRow :
      (status : PaymentStatus) (payment : ProviderPayment)
      → Triple
          (λ _. Unit {0})
          (update_payment_status id status (non_empty payment.id) (some payment) none)
          (λ _. HasRow id (Stored status))
          (λ _. Unit {0})
  unfolding update_payment_status with_status has_completed_topup
  store-HasRow status payment =
      update_payment-HasRow id (with_status status (non_empty payment.id) (some payment) none)
        (Stored status) (λ p. refl) (λ p. (refl, refl))

  submitted :
      (status : PaymentStatus) {r : ClientResponse} {s : Store}
      → r.status ≡ status
      → status ≢ completed
      → HasRow id (Stored status) s
      → HasRow id (IsSubmitted r) s
  submitted status same open' h = record {
    row = h.row;
    found = h.found;
    holds = record {
      status = h.holds.0 ∙ sym same;
      not_completed = rw same open';
      no_topup = h.holds.1;
    };
  }

  record_and_respond-IsSubmitted :
      (payment : ProviderPayment)
      → Triple
          (λ _. Unit {0})
          (record_and_respond env id payment)
          (λ r s. HasRow id (IsSubmitted r) s)
          (λ _. Unit {0})
  unfolding record_and_respond map_clip_status_before_webhook
  record_and_respond-IsSubmitted payment =
      let status = before_webhook (map_clip_status_to_internal (some payment.status)) in
      Triple-bind (λ r. HasRow id (IsSubmitted r))
        (update_payment_status id status (non_empty payment.id) (some payment) none)
        (λ _. lift (map_to_client_response payment (some status))) (store-HasRow status payment)
        (λ a.
          Triple-lift (λ r. HasRow id (IsSubmitted r))
            (map_to_client_response payment (some status))
            (λ r s e h.
              submitted status (client_response-status payment status e)
                (before_webhook-ne-completed (map_clip_status_to_internal (some payment.status)))
                h))

  abbrev After : Action Store ClientResponse → Type 0
  After m = Triple (λ _. Unit {0}) m (λ r s. HasRow id (IsSubmitted r) s) (λ _. Unit {0})

  abbrev next :
      {A : Type 0} (m : Action Store A) (f : A → Action Store ClientResponse)
      → ((a : A) → After (f a))
      → After (m >>= f)
  next m f h = Triple-bind (λ r. HasRow id (IsSubmitted r)) m f (Triple-any m) h

  process_payment-After :
      (url : String) (data' : ProcessPaymentRequest) → After (process_payment env url id data')
  unfolding process_payment
  process_payment-After url data' = search (next, record_and_respond-IsSubmitted) depth 12

  verify_payment_status-After : After (verify_payment_status env id)
  unfolding verify_payment_status
  verify_payment_status-After = search (next, record_and_respond-IsSubmitted) depth 12

-- After a payment has been submitted, its row has the status that the client is told, which is not
-- COMPLETED, and no top-up is recorded in it.
pub process_payment-IsSubmitted :
    (env : Services) (url : String) (id : ℕ) (data' : ProcessPaymentRequest) (s : Store)
    {r : ClientResponse} {s' : Store}
    → process_payment env url id data' s ≡ (ok r, s')
    → HasRow id (IsSubmitted r) s'
process_payment-IsSubmitted env url id data' s {r} run =
    Triple-run (λ r. HasRow id (IsSubmitted r)) (λ _. Unit {0})
      (process_payment-After env id url data') tt run

-- After a payment has been verified with the provider, whatever its row held before, the row has the
-- status that the client is told, which is not COMPLETED, and no top-up is recorded in it.
pub verify_payment_status-IsSubmitted :
    (env : Services) (id : ℕ) (s : Store) {r : ClientResponse} {s' : Store}
    → verify_payment_status env id s ≡ (ok r, s')
    → HasRow id (IsSubmitted r) s'
verify_payment_status-IsSubmitted env id s {r} run =
    Triple-run (λ r. HasRow id (IsSubmitted r)) (λ _. Unit {0}) (verify_payment_status-After env id)
      tt run

processed_again :
    (env : Services) (url : String) (id : ℕ) (data' : ProcessPaymentRequest) (r : ClientResponse)
    (s : Store)
    → HasRow id (IsSubmitted r) s
    → r.status ≢ pending
    → process_payment env url id data' s
      ≡ (err (bad_request "Payment has already been processed"), s)
unfolding process_payment ◌>>=◌ get_payment_by_id
processed_again env url id data' r s h open' =
    let no = not_pending h.row.status (rw h.holds.status open') in rw (h.found, no, ◌>>=◌)

-- Submissions of the payment `id`, with any data and any answers of the services, between any changes
-- of the state that leave the payment's row as it is.
pub data Submissions (id : ℕ) (s : Store) : Store → Type 0 where
  none_yet : Submissions id s s
  submission :
      {t : Store} (env : Services) (url : String) (data' : ProcessPaymentRequest)
      → Submissions id s t
      → Submissions id s (process_payment env url id data' t).1
  between :
      {t : Store} (u : Store)
      → find (has_id id) u.payments ≡ find (has_id id) t.payments
      → Submissions id s t
      → Submissions id s u

Submissions-HasRow :
    (id : ℕ) (r : ClientResponse) (s t : Store)
    → r.status ≢ pending
    → Submissions id s t
    → HasRow id (IsSubmitted r) s
    → HasRow id (IsSubmitted r) t
Submissions-HasRow id r s _ open' none_yet h = h
Submissions-HasRow id r s _ open' (submission {t} env url data' steps) h =
    let k = Submissions-HasRow id r s t open' steps h in
    rw (processed_again env url id data' r t k open') k
Submissions-HasRow id r s _ open' (between {t} u same steps) h =
    let k = Submissions-HasRow id r s t open' steps h in
    record { row = k.row; found = same ∙ k.found; holds = k.holds }

-- A payment that was submitted, and whose answer had a status other than PENDING, is not submitted
-- again while nothing else changes its row: after any further submissions, with any changes in
-- between that leave the row as it is, the next submission fails without a call of the provider and
-- without a write, whatever its data and the answers of the services. Nothing is said of changes of
-- the row by a verification or a webhook.
pub process_payment-once :
    (env again : Services) (url url_again : String) (id : ℕ)
    (data' data_again : ProcessPaymentRequest) (s t : Store) {r : ClientResponse} {s' : Store}
    → process_payment env url id data' s ≡ (ok r, s')
    → r.status ≢ pending
    → Submissions id s' t
    → process_payment again url_again id data_again t
      ≡ (err (bad_request "Payment has already been processed"), t)
process_payment-once env again url url_again id data' data_again s t {r} {s'} run open' steps =
    processed_again again url_again id data_again r t
      (Submissions-HasRow id r s' t open' steps
        (process_payment-IsSubmitted env url id data' s run))
      open'
