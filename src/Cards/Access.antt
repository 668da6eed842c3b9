-- ===== src/Cards/Access.antt =====
-- Requests about a card change no card of another user, and a card is assigned once.
use banking_mobile_backend.Prelude.{
  ℕ, String, ◌≡◌, refl, false, some, List, ◌==◌, ==_iff, Option-cases, Bool-cases, inl, inr, find,
  find-update_where, Result, Action, ◌>>=◌, ◌>>◌,
}
use banking_mobile_backend.Prelude.Keeps.{Keeps, Keeps-bind, keeps_rules}
use banking_mobile_backend.Cards.{
  Card, CardStatus, CardCall, CardStore, has_card_id, is_user, get_card_by_id, update_card,
  unlinked, unlink_card,
}
use banking_mobile_backend.Cards.Service.{
  CardServices, ask_cards, with_card_status, stop_card, unstop_card, unlink_user_card,
}
use banking_mobile_backend.Cards.Guards.{validate_card_ownership, check_pin, validate_card_pin}

module _ (env : CardServices) (user id : ℕ) where
  -- The routes `/:cardId/stop`, `/:cardId/unstop` and `/:cardId/unlink` of src/routes/card.routes.ts.
  unfoldable pub stop_route : String → Action CardStore ℕ
  stop_route pin =
      validate_card_ownership user id >> (validate_card_pin env pin id >> stop_card env id)

  unfoldable pub unstop_route : String → Action CardStore ℕ
  unstop_route pin =
      validate_card_ownership user id >> (validate_card_pin env pin id >> unstop_card env id)

  unfoldable pub unlink_route : Action CardStore (Unit {0})
  unlink_route = validate_card_ownership user id >> unlink_user_card env id

module _ (other : Card) where
  -- The row of another card is as it was.
  abbrev pub HasRow : CardStore → Type 0
  HasRow s = find (has_card_id other.id) s.cards ≡ some other

  ask_cards-HasRow :
      {A : Type 0} (call : CardCall) (answer : List CardCall → Result A)
      → Keeps HasRow (ask_cards call answer)
  unfolding ask_cards
  ask_cards-HasRow call answer = record { at = λ s h. h }

  update_card-HasRow :
      (id : ℕ) (change : Card → Card)
      → ((c : Card) → (change c).id ≡ c.id)
      → (id == other.id) ≡ false
      → Keeps HasRow (update_card id change)
  unfolding update_card
  update_card-HasRow id change same apart = record {
    at = λ s h. elim (Option-cases (find (has_card_id id) s.cards)) [
      | inl missing ↦ rw (missing, update_card) h
      | inr (c, found) ↦
          rw
            (
              found,
              update_card,
              find-update_where (λ (c : Card). c.id) change same other.id id s.cards,
              apart,
            )
            h
    ];
  }

  status-HasRow :
      (id : ℕ) (status : CardStatus)
      → (id == other.id) ≡ false
      → Keeps HasRow (update_card id (with_card_status status))
  status-HasRow id status apart = update_card-HasRow id (with_card_status status) (λ c. refl) apart

  unlink-HasRow : (id : ℕ) → (id == other.id) ≡ false → Keeps HasRow (unlink_card id)
  unfolding unlink_card unlinked
  unlink-HasRow id apart = update_card-HasRow id unlinked (λ c. refl) apart

  module _ (env : CardServices) (id : ℕ) (apart : (id == other.id) ≡ false) where
    pin-HasRow : (pin : String) → Keeps HasRow (validate_card_pin env pin id)
    unfolding validate_card_pin check_pin get_card_by_id
    pin-HasRow pin = search (keeps_rules, ask_cards-HasRow) depth 12

    pin_then :
        (pin : String) {A : Type 0} (m : Action CardStore A)
        → Keeps HasRow m
        → Keeps HasRow (validate_card_pin env pin id >> m)
    pin_then pin m kept =
        Keeps-bind (validate_card_pin env pin id) (λ _. m) (pin-HasRow pin) (λ a. kept)

    stop-HasRow : Keeps HasRow (stop_card env id)
    unfolding stop_card get_card_by_id
    stop-HasRow =
        search (keeps_rules, ask_cards-HasRow, λ (st : CardStatus). status-HasRow id st apart) depth
          12

    unstop-HasRow : Keeps HasRow (unstop_card env id)
    unfolding unstop_card get_card_by_id
    unstop-HasRow =
        search (keeps_rules, ask_cards-HasRow, λ (st : CardStatus). status-HasRow id st apart) depth
          12

    unlink_user_card-HasRow : Keeps HasRow (unlink_user_card env id)
    unfolding unlink_user_card get_card_by_id
    unlink_user_card-HasRow = search (keeps_rules, ask_cards-HasRow, unlink-HasRow, apart) depth 20

  guard-HasRow :
      (user id : ℕ) {A : Type 0} (m : Action CardStore A)
      → Keeps HasRow m
      → Keeps HasRow (validate_card_ownership user id >> m)
  unfolding validate_card_ownership get_card_by_id
  guard-HasRow user id m kept =
      Keeps-bind (validate_card_ownership user id) (λ _. m) (search keeps_rules depth 12)
        (λ a. kept)

  refused :
      (user : ℕ) {A : Type 0} (m : Action CardStore A) (s : CardStore)
      → HasRow s
      → is_user user other.user_id ≡ false
      → HasRow ((validate_card_ownership user other.id >> m) s).1
  unfolding validate_card_ownership get_card_by_id ◌>>=◌
  refused user m s h stranger = rw (h, stranger, ◌>>=◌) h

  guarded :
      (user id : ℕ) {A : Type 0} (m : Action CardStore A) (s : CardStore)
      → ((id == other.id) ≡ false → Keeps HasRow m)
      → HasRow s
      → is_user user other.user_id ≡ false
      → HasRow ((validate_card_ownership user id >> m) s).1
  guarded user id m s kept h stranger = elim (Bool-cases (id == other.id)) [
    | inl same ↦ rw ((==_iff id other.id).0 same) (refused user m s h stranger)
    | inr apart ↦ (guard-HasRow user id m (kept apart)).at s h
  ]

-- The requests that change cards by their id. Whatever a user asks for, with any card id and PIN,
-- and whatever the backoffice answers, the row of a card that is not the user's stays as it was.
pub routes-HasRow :
    (env : CardServices) (user id : ℕ) (pin : String) (other : Card) (s : CardStore)
    → find (has_card_id other.id) s.cards ≡ some other
    → is_user user other.user_id ≡ false
    → HasRow other (stop_route env user id pin s).1
      × HasRow other (unstop_route env user id pin s).1
      × HasRow other (unlink_route env user id s).1
unfolding stop_route unstop_route unlink_route
routes-HasRow env user id pin other s h stranger = (
  guarded other user id _ s
      (λ apart. pin_then other env id apart pin (stop_card env id) (stop-HasRow other env id apart))
      h stranger,
  guarded other user id _ s
      (λ apart.
        pin_then other env id apart pin (unstop_card env id) (unstop-HasRow other env id apart))
      h stranger,
  guarded other user id _ s (λ apart. unlink_user_card-HasRow other env id apart) h stranger,
)
