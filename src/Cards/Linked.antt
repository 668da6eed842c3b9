-- ===== src/Cards/Linked.antt =====
-- The cards of a bulk order get their numbers at the backoffice.
use mathlib.Core.Option
use banking_mobile_backend.Prelude.{
  ℕ, String, ◌≡◌, refl, sym, subst, ap, ◌∙◌, true, false, ◌&&◌, none, some, List, [], ◌∷◌, All,
  str_eq, eq_iff, if◌then◌else◌, find, find_sound, find-mapped, any, update_where, Bool-cases,
  Option-cases, inl, inr, arith, ok, Action, pure,
}
use banking_mobile_backend.Prelude.Runs.{bind-run, pure-run}
use banking_mobile_backend.Cards.{Card, CardStore, has_identifier}
use banking_mobile_backend.Cards.Service.{given}
use banking_mobile_backend.Cards.Orders.{RequestStore, in_cards}
use banking_mobile_backend.Cards.Issued.{
  NotifiedCard, BulkNotification, with_number, number_taken, link_number, link_notified,
  handle_bulk_order_card_notification,
}

-- The row with the identifier, when there is one, has the number of the notification, when it has
-- one.
pub record IsLinked (cards : List Card) (c : NotifiedCard) : Type 0 where
  pub linked :
      (key : ℕ) (row : Card)
      → given c.card_id ≡ some key
      → find (has_identifier c.card_identifier) cards ≡ some row
      → row.prospera_card_id ≡ some key

-- The notified cards have different identifiers.
abbrev pub Differ : List NotifiedCard → Type 0
Differ [] = Unit
Differ (c ∷ cs) = All (λ d. str_eq c.card_identifier d.card_identifier ≡ false) cs × Differ cs

link_number-run :
    (identifier : String) (key : ℕ) (s : CardStore) {u : Unit {0}} {s' : CardStore}
    → link_number identifier key s ≡ (ok u, s')
    → s'.cards ≡ update_where (has_identifier identifier) (with_number key) s.cards
unfolding link_number
link_number-run identifier key s run =
    elim (Bool-cases
      (any (has_identifier identifier) s.cards && any (number_taken identifier key) s.cards)) [
        | inl taken ↦ absurd (cc (rw (taken, link_number) at run))
        | inr free ↦ ap (λ t. t.1.cards) (sym (rw (free, link_number) at run))
      ]

module _ (identifier : String) (key : ℕ) (cards : List Card) where
  abbrev after : List Card
  after = update_where (has_identifier identifier) (with_number key) cards

  abbrev change : Card → Card
  change x = if has_identifier identifier x then with_number key x else x

  mapped :
      (own : String)
      → find (has_identifier own) after ≡ Option.map change (find (has_identifier own) cards)
  mapped own =
      find-mapped (has_identifier own) (has_identifier identifier) (with_number key) (λ x. refl)
        cards

  -- What is found in the table after the update, by what was found before it.
  found_after :
      (own : String) (row : Card)
      → find (has_identifier own) after ≡ some row
      → (x : Card) × (find (has_identifier own) cards ≡ some x)
        × ((if has_identifier identifier x then with_number key x else x) ≡ row)
  found_after own row found = elim (Option-cases (find (has_identifier own) cards)) [
    | inl missing ↦ absurd (cc (mapped own, found, ap (Option.map change) missing))
    | inr (x, before) ↦ (x, before, cc (mapped own, found, ap (Option.map change) before))
  ]

  IsLinked-own :
      (c : NotifiedCard)
      → c.card_identifier ≡ identifier
      → given c.card_id ≡ some key
      → IsLinked after c
  IsLinked-own c same number = record {
    linked = λ k row given_k found.
        let (x, before, changed) = found_after c.card_identifier row found in
        let own : has_identifier identifier x ≡ true =
          subst (λ i. has_identifier i x ≡ true) same
            (find_sound (has_identifier c.card_identifier) cards x before) in
        let numbered : with_number key x ≡ row = rw own at changed in
        ap (λ (r : Card). r.prospera_card_id) (sym numbered) ∙ sym number ∙ given_k;
  }

  IsLinked-other :
      (c : NotifiedCard)
      → str_eq c.card_identifier identifier ≡ false
      → IsLinked cards c
      → IsLinked after c
  IsLinked-other c differs h = record {
    linked = λ k row given_k found.
        let (x, before, changed) = found_after c.card_identifier row found in
        let own = find_sound (has_identifier c.card_identifier) cards x before in
        let other : has_identifier identifier x ≡ false = ground (
          arith,
          own,
          differs,
          eq_iff x.card_identifier c.card_identifier,
          eq_iff x.card_identifier identifier,
          eq_iff c.card_identifier identifier,
        ) in
        let same : x ≡ row = rw other at changed in
        h.linked k row given_k (before ∙ ap (λ v. some v) same);
  }

-- One notified card of the list.
abbrev link_one : NotifiedCard → Action CardStore (Unit {0})
link_one c = elim (given c.card_id) [
  | none ↦ pure tt
  | some key ↦ link_number c.card_identifier key
]

link_one-own :
    (c : NotifiedCard) (s : CardStore) {u : Unit {0}} {s' : CardStore}
    → link_one c s ≡ (ok u, s')
    → IsLinked s'.cards c
link_one-own c s {s'} run = elim (Option-cases (given c.card_id)) [
  | inl absent ↦ record { linked = λ key row number found. cc (absent, number) }
  | inr (key, number) ↦
      let linked = link_number-run c.card_identifier key s (rw (number, link_one) at run) in
      rw linked (IsLinked-own c.card_identifier key s.cards c refl number)
]

link_one-other :
    (c d : NotifiedCard) (s : CardStore) {u : Unit {0}} {s' : CardStore}
    → str_eq d.card_identifier c.card_identifier ≡ false
    → link_one c s ≡ (ok u, s')
    → IsLinked s.cards d
    → IsLinked s'.cards d
link_one-other c d s {s'} differs run h = elim (Option-cases (given c.card_id)) [
  | inl absent ↦
      let (_, kept) = pure-run tt (rw (absent, link_one) at run) in
      subst (λ x. IsLinked x.cards d) kept h
  | inr (key, number) ↦
      let linked = link_number-run c.card_identifier key s (rw (number, link_one) at run) in
      rw linked (IsLinked-other c.card_identifier key s.cards d differs h)
]

-- A card that is not notified again keeps its number.
link_notified-kept :
    (d : NotifiedCard) (cs : List NotifiedCard) (s : CardStore) {u : Unit {0}} {s' : CardStore}
    → All (λ c. str_eq d.card_identifier c.card_identifier ≡ false) cs
    → link_notified cs s ≡ (ok u, s')
    → IsLinked s.cards d
    → IsLinked s'.cards d
unfolding link_notified
link_notified-kept d [] s differ run h =
    let (_, kept) = pure-run tt run in subst (λ x. IsLinked x.cards d) kept h
link_notified-kept d (c ∷ cs) s (differs, rest) run h =
    let (_, middle, first, run1) = bind-run (link_one c) (λ _. link_notified cs) run in
    link_notified-kept d cs middle rest run1 (link_one-other c d s differs first h)

link_notified-IsLinked :
    (cs : List NotifiedCard) (s : CardStore) {u : Unit {0}} {s' : CardStore}
    → Differ cs
    → link_notified cs s ≡ (ok u, s')
    → All (IsLinked s'.cards) cs
unfolding link_notified
link_notified-IsLinked [] s differ run = tt
link_notified-IsLinked (c ∷ cs) s (differ, rest) run =
    let (_, middle, first, run1) = bind-run (link_one c) (λ _. link_notified cs) run in
    (
      link_notified-kept c cs middle differ run1 (link_one-own c s first),
      link_notified-IsLinked cs middle rest run1,
    )

in_cards-run :
    (m : Action CardStore (Unit {0})) (s : RequestStore) {u : Unit {0}} {s' : RequestStore}
    → in_cards m s ≡ (ok u, s')
    → m s.cards ≡ (ok u, s'.cards)
unfolding in_cards
in_cards-run m s run = λ i. ((run i).0, (run i).1.cards)

-- After a notification of a bulk order that was processed, every notified card that has a number and
-- stands in the table has that number there, when the notified identifiers differ.
pub handle_bulk_order_card_notification-IsLinked :
    (n : BulkNotification) (s : RequestStore) {u : Unit {0}} {s' : RequestStore}
    → Differ n.cards
    → handle_bulk_order_card_notification n s ≡ (ok u, s')
    → All (IsLinked s'.cards.cards) n.cards
unfolding handle_bulk_order_card_notification
handle_bulk_order_card_notification-IsLinked n s differ run =
    let (_, middle, stored, run1) = bind-run _ _ run in
    link_notified-IsLinked n.cards middle.cards differ
      (in_cards-run (link_notified n.cards) middle run1)
