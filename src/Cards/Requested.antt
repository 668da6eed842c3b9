-- ===== src/Cards/Requested.antt =====
-- What a request of a physical card does to the cards.
use banking_mobile_backend.Prelude.{
  ℕ, String, ◌≡◌, refl, sym, subst, ap, Bool, true, ◌&&◌, some, List, [], ◌∷◌, ◌++◌, ◌==◌, ==_refl,
  ==_iff, find_sound, Bool-cases, Option-cases, inl, inr, find, update_where, select, any, arith,
  gets, ok, Action, ◌>>=◌,
}
use banking_mobile_backend.Prelude.Runs.{gets-run, or_throw-run, bind-run, throw_if-run}
use banking_mobile_backend.Prelude.Unique.{insert_row}
use banking_mobile_backend.Cards.{
  Card, CardStore, is_physical, is_user, has_card_id, update_card, find_existing_physical_card,
  find_available_physical_cards,
}
use banking_mobile_backend.Cards.Service.{with_user}
use banking_mobile_backend.Cards.Status.{get_card_status_by_user}
use banking_mobile_backend.Cards.Orders.{
  DeliveryType, home, slan, CardUser, RequestPhysicalCardRequest, DeliveryLocation, CardPickup,
  RequestHost, RequestStore, RequestPhysicalCardResponse, in_cards, card_clash, create_card,
  create_pickup, item_at,
}
use banking_mobile_backend.Cards.Stock.{is_available}
use banking_mobile_backend.Cards.Request.{
  delivery_location, finish_request, give_card, order_card, supply, request_physical_card,
  requested_card,
}

abbrev is_card_of : (user id : ℕ) → Card → Bool
is_card_of user id c = c.id == id && (is_user user c.user_id && is_physical c.card_type)

-- The card of an answer: a physical card of the user, with its pickup recorded last.
pub record IsRequested (user : ℕ) (r : RequestPhysicalCardResponse) (s : RequestStore)
    : Type 0 where
  pub present : any (is_card_of user r.card_id) s.cards.cards ≡ true
  pub pickup : CardPickup
  pub older : List CardPickup
  pub recorded : s.pickups ≡ pickup ∷ older
  pub of_card : pickup.card_id ≡ r.card_id
  pub of_user : pickup.user_id ≡ user

module _ {A : Type 0} (q : A → Bool) where
  item-any : (x : A) (n : ℕ) (xs : List A) → item_at n xs ≡ some x → q x ≡ true → any q xs ≡ true
  unfolding any
  item-any x n [] found h = cc found
  item-any x ℕ.zero (y ∷ ys) found h = let same : y ≡ x = cc found in rw (same, h) refl
  item-any x (ℕ.suc n) (y ∷ ys) found h = ground (arith, item-any x n ys found h)

  any-select :
      (p : A → Bool) (xs : List A) → any q (select p xs) ≡ true → any (λ y. p y && q y) xs ≡ true
  unfolding any select
  any-select p [] h = h
  any-select p (y ∷ ys) h = elim (Bool-cases (p y)) [
    | inl kept ↦ elim (Bool-cases (q y)) [
      | inl here ↦ rw (kept, here) refl
      | inr later ↦ rw (kept, later) (any-select p ys (rw (kept, later) at h))
    ]
    | inr dropped ↦ rw dropped (any-select p ys (rw dropped at h))
  ]

any-given :
    (user id : ℕ) (cards : List Card)
    → any (λ c. is_available c && c.id == id) cards ≡ true
    → any (is_card_of user id) (update_where (has_card_id id) (with_user user) cards) ≡ true
unfolding any update_where
any-given user id [] h = cc h
any-given user id (c ∷ cs) h = elim (Bool-cases (is_available c && c.id == id)) [
  | inl here ↦ ground (arith, here)
  | inr other ↦ let later = any-given user id cs (rw other at h) in ground (arith, later)
]

any-append :
    (user id : ℕ) (c : Card) (cards : List Card)
    → is_card_of user id c ≡ true
    → any (is_card_of user id) (cards ++ (c ∷ [])) ≡ true
unfolding any
any-append user id c [] h = rw h refl
any-append user id c (d ∷ ds) h = let later = any-append user id c ds h in ground (arith, later)

pub delivery_location-run :
    (host : RequestHost) (user : CardUser) (delivery : DeliveryType)
    (request : RequestPhysicalCardRequest) (s : RequestStore) {l : DeliveryLocation}
    {s' : RequestStore}
    → delivery_location host user delivery request s ≡ (ok l, s')
    → s ≡ s'
unfolding delivery_location ◌>>=◌
delivery_location-run host user slan request s run = ap (λ t. t.1) run
delivery_location-run host user home request s run = elim (Option-cases request.billing_address) [
  | inl missing ↦ absurd (cc (rw missing at run))
  | inr (address, known) ↦ ap (λ t. t.1) (rw known at run)
]

module _ (host : RequestHost) (user : CardUser) (delivery : DeliveryType)
    (request : RequestPhysicalCardRequest) where
  finish_request-IsRequested :
      (card : Card) (location : DeliveryLocation) (s : RequestStore)
      {r : RequestPhysicalCardResponse} {s' : RequestStore}
      → any (is_card_of user.id card.id) s.cards.cards ≡ true
      → finish_request host user delivery request card location s ≡ (ok r, s')
      → IsRequested user.id r s'
  unfolding finish_request create_pickup in_cards get_card_status_by_user ◌>>=◌
  finish_request-IsRequested card location s {r} {s'} present run =
      let numbers : card.id ≡ r.card_id = cc run in
      let rows : s.cards.cards ≡ s'.cards.cards = ap (λ t. t.1.cards.cards) run in
      record {
        present = rw (sym rows, sym numbers) present;
        pickup = _;
        older = s.pickups;
        recorded = sym (ap (λ t. t.1.pickups) run);
        of_card = numbers;
        of_user = refl;
      }

  update_card-given :
      (selected : Card) (s : RequestStore) {u : Unit {0}} {s' : RequestStore}
      → in_cards (update_card selected.id (with_user user.id)) s ≡ (ok u, s')
      → any (λ c. is_available c && c.id == selected.id) s.cards.cards ≡ true
      → any (is_card_of user.id selected.id) s'.cards.cards ≡ true
  unfolding in_cards update_card
  update_card-given selected s run h =
      elim (Option-cases (find (has_card_id selected.id) s.cards.cards)) [
        | inl missing ↦ absurd (cc (rw (missing, update_card) at run))
        | inr (c, found) ↦
            let stored = ap (λ t. t.1.cards.cards) (rw (found, update_card) at run) in
            rw (sym stored) (any-given user.id selected.id s.cards.cards h)
      ]

  give_card-IsRequested :
      (s : RequestStore) {r : RequestPhysicalCardResponse} {s' : RequestStore}
      → give_card host user delivery request (select is_available s.cards.cards) s ≡ (ok r, s')
      → IsRequested user.id r s'
  unfolding give_card
  give_card-IsRequested s {r} {s'} run =
      let (selected, drawn, run1) = or_throw-run _ _ _ run in
      let (u, updated, assigned, run2) = bind-run _ _ run1 in
      let (location, after, located, run3) = bind-run _ _ run2 in
      let same = delivery_location-run host user delivery request updated located in
      finish_request-IsRequested selected location after
        (subst (λ t. any (is_card_of user.id selected.id) t.cards.cards ≡ true) same
          (update_card-given selected s assigned (
            any-select (λ c. c.id == selected.id) is_available s.cards.cards
              (item-any (λ c. c.id == selected.id) selected _ _ drawn (==_refl selected.id)))))
        run3

  create_card-given :
      (reference : String) (s : RequestStore) {c : Card} {s' : RequestStore}
      → create_card (requested_card host user.id reference) s ≡ (ok c, s')
      → any (is_card_of user.id c.id) s'.cards.cards ≡ true
  unfolding create_card insert_row
  create_card-given reference s {c} {s'} run =
      let new = requested_card host user.id reference s.next_card in
      elim (Bool-cases (any (card_clash new) s.cards.cards)) [
        | inl clashing ↦ absurd (cc (rw (clashing, create_card) at run))
        | inr free ↦
            let done = rw (free, create_card) at run in
            let same : new ≡ c = cc done in
            rw (sym (ap (λ t. t.1.cards.cards) done), sym same)
              (any-append user.id s.next_card new s.cards.cards
                (ground (arith, ==_refl s.next_card, ==_refl user.id)))
      ]

  order_card-IsRequested :
      (s : RequestStore) {r : RequestPhysicalCardResponse} {s' : RequestStore}
      → order_card host user delivery request s ≡ (ok r, s')
      → IsRequested user.id r s'
  unfolding order_card
  order_card-IsRequested s run =
      let (location, s1, located, run1) = bind-run _ _ run in
      let (answer, s2, answered, run2) = bind-run _ _ run1 in
      let (reference, given, run3) = or_throw-run _ _ _ run2 in
      let (u, s4, recorded, run4) = bind-run _ _ run3 in
      let (card, s5, created, run5) = bind-run _ _ run4 in
      finish_request-IsRequested card location s5 (create_card-given reference s4 created) run5

  supply-IsRequested :
      (s : RequestStore) (cards : List Card) {r : RequestPhysicalCardResponse} {s' : RequestStore}
      → cards ≡ select is_available s.cards.cards
      → supply host user delivery request cards s ≡ (ok r, s')
      → IsRequested user.id r s'
  supply-IsRequested s [] same run = order_card-IsRequested s run
  supply-IsRequested s (c ∷ cs) same run = give_card-IsRequested s (rw same at run)

module _ {A B : Type 0} {s s' : RequestStore} {b : B} where
  in_cards-run :
      (g : CardStore → A) (f : A → Action RequestStore B)
      → (in_cards (gets g) >>= f) s ≡ (ok b, s')
      → f (g s.cards) s ≡ (ok b, s')
  unfolding in_cards ◌>>=◌
  in_cards-run g f run = run

-- A request that returns has given the user a physical card, from the inventory or by an order: it
-- stands in the table under the number in the answer, and its pickup was recorded for the user.
pub request_physical_card-IsRequested :
    (host : RequestHost) (user : ℕ) (delivery : DeliveryType) (request : RequestPhysicalCardRequest)
    (s : RequestStore) {r : RequestPhysicalCardResponse} {s' : RequestStore}
    → request_physical_card host user delivery request s ≡ (ok r, s')
    → IsRequested user r s'
unfolding request_physical_card find_existing_physical_card find_available_physical_cards
request_physical_card-IsRequested host user delivery request s {r} {s'} run =
    let (known, found, run1) = or_throw-run _ _ _ (gets-run _ _ run) in
    let (_, run2) = throw_if-run _ _ _ (in_cards-run _ _ run1) in
    let same = (==_iff known.id user).0 (find_sound (λ u. u.id == user) s.users known found) in
    subst (λ n. IsRequested n r s') same
      (supply-IsRequested host known delivery request s (select is_available s.cards.cards) refl
        (in_cards-run _ _ run2))
