-- ===== src/Cards/Kept.antt =====
-- A request of a physical card leaves the cards of the other users alone.
use banking_mobile_backend.Prelude.{
  ℕ, ◌≡◌, refl, Bool, true, false, Option, none, some, List, [], ◌∷◌, ◌==◌, All, Bool-cases,
  Option-cases, inl, inr, find, find-update_where, select, any, ◌>>=◌, ◌>>◌, throw_if, plain, gets,
  type_error, or_throw, length, str_eq,
}
use banking_mobile_backend.Prelude.Keeps.{Keeps, Keeps-bind, keeps_rules}
use banking_mobile_backend.Prelude.Unique.{insert_row, Distinct}
use banking_mobile_backend.Cards.{
  Card, has_card_id, update_card, find_existing_physical_card, find_available_physical_cards,
}
use banking_mobile_backend.Cards.Service.{with_user}
use banking_mobile_backend.Cards.Status.{get_card_status_by_user}
use banking_mobile_backend.Cards.Orders.{
  DeliveryType, home, slan, CardUser, BulkOrder, BulkBatch, RequestPhysicalCardRequest,
  DeliveryLocation, CardPickup, RequestHost, RequestStore, in_cards, card_clash, create_card,
  create_batch, create_pickup, item_at,
}
use banking_mobile_backend.Cards.Request.{
  delivery_location, post_bulk_order, finish_request, give_card, order_card, supply,
  request_physical_card,
}
use banking_mobile_backend.Cards.Stock.{
  is_available, Differs, select-Differs, find-append, item-Differs,
}

module _ (other : Card) where
  -- The row of the card is as it was.
  abbrev pub HasCard : RequestStore → Type 0
  HasCard s = find (has_card_id other.id) s.cards.cards ≡ some other

  create_card-HasCard : (row : ℕ → Card) → Keeps HasCard (create_card row)
  unfolding create_card insert_row
  create_card-HasCard row = record {
    at = λ s h. elim (Bool-cases (any (card_clash (row s.next_card)) s.cards.cards)) [
      | inl taken ↦ rw (taken, create_card) h
      | inr free ↦ rw (free, create_card) (find-append other (row s.next_card) s.cards.cards h)
    ];
  }

  create_batch-HasCard : (b : BulkBatch) → Keeps HasCard (create_batch b)
  unfolding create_batch
  create_batch-HasCard b = record {
    at = λ s h.
        elim (Bool-cases
          (any (λ (c : BulkBatch). str_eq c.reference_batch b.reference_batch) s.batches)) [
            | inl taken ↦ rw (taken, create_batch) h
            | inr free ↦ rw (free, create_batch) h
          ];
  }

  create_pickup-HasCard : (p : CardPickup) → Keeps HasCard (create_pickup p)
  unfolding create_pickup
  create_pickup-HasCard p = record { at = λ s h. h }

  status-HasCard : (now user : ℕ) → Keeps HasCard (in_cards (get_card_status_by_user now user))
  unfolding in_cards get_card_status_by_user gets
  status-HasCard now user = record { at = λ s h. h }

  give-HasCard :
      (id user : ℕ)
      → (id == other.id) ≡ false
      → Keeps HasCard (in_cards (update_card id (with_user user)))
  unfolding in_cards update_card
  give-HasCard id user apart = record {
    at = λ s h. elim (Option-cases (find (has_card_id id) s.cards.cards)) [
      | inl missing ↦ rw (missing, update_card) h
      | inr (c, found) ↦
          rw
            (
              found,
              update_card,
              find-update_where (λ (c : Card). c.id) (with_user user) (λ c. refl) other.id id
                  s.cards.cards,
              apart,
            )
            h
    ];
  }

  module _ (host : RequestHost) where
    delivery_location-HasCard :
        (user : CardUser) (delivery : DeliveryType) (request : RequestPhysicalCardRequest)
        → Keeps HasCard (delivery_location host user delivery request)
    unfolding delivery_location
    delivery_location-HasCard user slan request = search (keeps_rules)
    delivery_location-HasCard user home request = search (keeps_rules)

    post_bulk_order-HasCard : (o : BulkOrder) → Keeps HasCard (post_bulk_order host o)
    unfolding post_bulk_order
    post_bulk_order-HasCard o = record { at = λ s h. h }

    module _ (user : CardUser) (delivery : DeliveryType)
        (request : RequestPhysicalCardRequest) where
      finish_request-HasCard :
          (c : Card) (location : DeliveryLocation)
          → Keeps HasCard (finish_request host user delivery request c location)
      unfolding finish_request
      finish_request-HasCard c location =
          search (keeps_rules, create_pickup-HasCard, status-HasCard) depth 8

      order_card-HasCard : Keeps HasCard (order_card host user delivery request)
      unfolding order_card
      order_card-HasCard =
          search
            (
              keeps_rules, delivery_location-HasCard, post_bulk_order-HasCard, create_batch-HasCard,
              create_card-HasCard, finish_request-HasCard,
            )
            depth 16

      assigned :
          (c : Card)
          → Differs other c
          → Keeps HasCard (
              in_cards (update_card c.id (with_user user.id))
              >> (delivery_location host user delivery request >>= λ location.
                  finish_request host user delivery request c location))
      assigned c apart =
          Keeps-bind (in_cards (update_card c.id (with_user user.id)))
            (λ _. delivery_location host user delivery request >>= λ location.
              finish_request host user delivery request c location)
            (give-HasCard c.id user.id apart)
            (λ _. search (keeps_rules, delivery_location-HasCard, finish_request-HasCard) depth 8)

      drawn-HasCard :
          (drawn : Option Card)
          → ((c : Card) → drawn ≡ some c → Differs other c)
          → Keeps HasCard (
              or_throw drawn (type_error "Cannot read properties of undefined (reading 'id')")
              >>= λ selected.
                  in_cards (update_card selected.id (with_user user.id))
                  >> (delivery_location host user delivery request >>= λ location.
                      finish_request host user delivery request selected location))
      unfolding ◌>>=◌
      drawn-HasCard none h = record { at = λ s kept. kept }
      drawn-HasCard (some c) h = record { at = (assigned c (h c refl)).at }

      supply-HasCard :
          (cards : List Card)
          → All (Differs other) cards
          → Keeps HasCard (supply host user delivery request cards)
      unfolding give_card
      supply-HasCard [] h = order_card-HasCard
      supply-HasCard (c ∷ cs) h =
          drawn-HasCard (item_at (host.pick (length (c ∷ cs))) (c ∷ cs))
            (λ x found. item-Differs other _ x (c ∷ cs) h found)

  module _ (host : RequestHost) (user : ℕ) (delivery : DeliveryType)
      (request : RequestPhysicalCardRequest) (s : RequestStore) where
    abbrev inventory : List Card
    inventory = select is_available s.cards.cards

    checked-HasCard :
        (u : CardUser) (exists : Bool)
        → All (Differs other) inventory
        → HasCard s
        → HasCard
            ((throw_if exists (plain "You already have a physical card requested or active")
                >> (in_cards find_available_physical_cards >>= λ available.
                    supply host u delivery request available))
              s).1
    unfolding in_cards find_available_physical_cards ◌>>=◌
    checked-HasCard u true h kept = kept
    checked-HasCard u false h kept = (supply-HasCard host u delivery request inventory h).at s kept

    -- The row of a card that is not free stays as it is, whoever requests a physical card and however
    -- the request ends, when the numbers of the cards are distinct.
    pub request_physical_card-HasCard :
        Distinct (λ (c : Card). c.id) card_clash s.cards.cards
        → HasCard s
        → is_available other ≡ false
        → HasCard (request_physical_card host user delivery request s).1
    unfolding request_physical_card in_cards find_existing_physical_card
        find_available_physical_cards ◌>>=◌
    request_physical_card-HasCard distinct kept owned =
        elim (Option-cases (find (λ (u : CardUser). u.id == user) s.users)) [
          | inl missing ↦ rw (missing, request_physical_card) kept
          | inr (u, known) ↦
              rw (known, request_physical_card)
                (checked-HasCard u _ (select-Differs other s.cards.cards distinct kept owned) kept)
        ]
