-- ===== src/Cards/Refused.antt =====
-- The notification of an order that was stored when the card was requested.
use banking_mobile_backend.Prelude.{
  ℕ, String, ◌≡◌, refl, sym, subst, ap, ◌∙◌, true, Option, some, str_eq, eq_iff, any, Bool-cases,
  inl, inr, arith, database, ok, err, ◌>>=◌,
}
use banking_mobile_backend.Prelude.Keeps.{Keeps}
use banking_mobile_backend.Prelude.Runs.{or_throw-run, bind-run}
use banking_mobile_backend.Prelude.Unique.{insert_row}
use banking_mobile_backend.Cards.{Card}
use banking_mobile_backend.Cards.Status.{get_card_status_by_user}
use banking_mobile_backend.Cards.Orders.{
  DeliveryType, CardUser, BulkBatch, BulkOrder, BulkPayload, RequestPhysicalCardRequest,
  DeliveryLocation, RequestHost, RequestStore, RequestPhysicalCardResponse, in_cards, card_clash,
  create_card, create_batch, create_pickup,
}
use banking_mobile_backend.Cards.Request.{
  post_bulk_order, reference_of, finish_request, order_card, requested_card,
}
use banking_mobile_backend.Cards.Requested.{delivery_location-run}
use banking_mobile_backend.Cards.Issued.{BulkNotification, handle_bulk_order_card_notification}

-- The order was answered with a reference, and a notification with that reference ends in an error
-- that leaves everything as it is.
pub record IsRefused (host : RequestHost) (s after : RequestStore) : Type 0 where
  pub order : BulkOrder
  pub answer : Option BulkPayload
  pub reference : String
  pub answered : host.bulk_order s.orders order ≡ ok answer
  pub named : reference_of host answer ≡ some reference
  pub refused :
      (n : BulkNotification)
      → n.batch.reference_batch ≡ reference
      → handle_bulk_order_card_notification n after
        ≡ (err (database "Unique constraint failed"), after)

abbrev HasBatch : String → RequestStore → Type 0
HasBatch reference s = any (λ (c : BulkBatch). str_eq c.reference_batch reference) s.batches ≡ true

module _ (reference : String) where
  create_batch-HasBatch :
      (status : ℕ) (s : RequestStore) {u : Unit {0}} {s' : RequestStore}
      → create_batch (record { reference_batch = reference; status = status }) s ≡ (ok u, s')
      → HasBatch reference s'
  unfolding create_batch any
  create_batch-HasBatch status s run =
      elim (Bool-cases (any (λ (c : BulkBatch). str_eq c.reference_batch reference) s.batches)) [
        | inl taken ↦ absurd (cc (rw (taken, create_batch) at run))
        | inr free ↦
            let done = rw (free, create_batch) at run in
            rw (sym (ap (λ t. t.1.batches) done)) (ground (arith, eq_iff reference reference))
      ]

  create_card-HasBatch : (row : ℕ → Card) → Keeps (HasBatch reference) (create_card row)
  unfolding create_card insert_row
  create_card-HasBatch row = record {
    at = λ s h. elim (Bool-cases (any (card_clash (row s.next_card)) s.cards.cards)) [
      | inl taken ↦ rw (taken, create_card) h
      | inr free ↦ rw (free, create_card) h
    ];
  }

  finish_request-HasBatch :
      (host : RequestHost) (user : CardUser) (delivery : DeliveryType)
      (request : RequestPhysicalCardRequest) (c : Card) (location : DeliveryLocation)
      → Keeps (HasBatch reference) (finish_request host user delivery request c location)
  unfolding finish_request create_pickup in_cards get_card_status_by_user ◌>>=◌
  finish_request-HasBatch host user delivery request c location = record { at = λ s h. h }

  refused_again :
      (n : BulkNotification) (s : RequestStore)
      → HasBatch reference s
      → n.batch.reference_batch ≡ reference
      → handle_bulk_order_card_notification n s ≡ (err (database "Unique constraint failed"), s)
  unfolding handle_bulk_order_card_notification create_batch ◌>>=◌
  refused_again n s h same = rw (same, h, handle_bulk_order_card_notification) refl

answer_of :
    (host : RequestHost) (order : BulkOrder) (s s1 : RequestStore) {answer : Option BulkPayload}
    {s2 : RequestStore}
    → s ≡ s1
    → post_bulk_order host order s1 ≡ (ok answer, s2)
    → host.bulk_order s.orders order ≡ ok answer
unfolding post_bulk_order
answer_of host order s s1 same run =
    ap (λ x. host.bulk_order x.orders order) same ∙ ap (λ t. t.0) run

-- A physical card that was ordered at the backoffice cannot be linked by the notification of its
-- order: the request has stored the reference that the backoffice answered, and every notification
-- with that reference ends in an error of the database and changes nothing.
pub order_card-IsRefused :
    (host : RequestHost) (user : CardUser) (delivery : DeliveryType)
    (request : RequestPhysicalCardRequest) (s : RequestStore) {r : RequestPhysicalCardResponse}
    {s' : RequestStore}
    → order_card host user delivery request s ≡ (ok r, s')
    → IsRefused host s s'
unfolding order_card
order_card-IsRefused host user delivery request s {s'} run =
    let (location, s1, located, run1) = bind-run _ _ run in
    let (answer, s2, posted, run2) = bind-run _ _ run1 in
    let (reference, named, run3) = or_throw-run _ _ _ run2 in
    let (_, s4, stored, run4) = bind-run _ _ run3 in
    let (card, s5, created, run5) = bind-run _ _ run4 in
    let kept : HasBatch reference s5 =
      subst (λ t. HasBatch reference t.1) created
        ((create_card-HasBatch reference (requested_card host user.id reference)).at s4
          (create_batch-HasBatch reference _ s2 stored)) in
    let held : HasBatch reference s' =
      subst (λ t. HasBatch reference t.1) run5
        ((finish_request-HasBatch reference host user delivery request card location).at s5 kept) in
    record {
      order = _;
      answer = answer;
      reference = reference;
      answered =
          answer_of host _ s s1 (delivery_location-run host user delivery request s located) posted;
      named = named;
      refused = λ n same. refused_again reference n s' held same;
    }
