-- ===== src/Cards/Service.antt =====
-- src/services/card.service.ts: stop and unstop, assignment and unlinking.
use banking_mobile_backend.Prelude.{
  ℕ, String, Option, none, some, List, ◌∷◌, is_some, plain, bad_request, Result, Action, ◌>>=◌,
  ◌>>◌, pure, or_throw, throw_if,
}
use banking_mobile_backend.Cards.{
  Card, CardStatus, CardCall, CardStore, active, blocked, get_card_by_id, get_card_by_identifier,
  update_card, update_card_by_identifier, unlink_card,
}

-- The answers of the backoffice: to a stop, an unstop or a retirement of a card, and its PIN.
pub record CardServices : Type 0 where
  pub confirm : List CardCall → ℕ → Result (Unit {0})
  pub view_pin : List CardCall → ℕ → Result (Option String)

unfoldable pub ask_cards : {A : Type 0} → CardCall → (List CardCall → Result A) → Action CardStore A
ask_cards call answer s = (answer s.calls, record s { calls = call ∷ s.calls })

-- An absent or zero number counts as missing (`!card.userId`).
abbrev pub given : Option ℕ → Option ℕ
given none = none
given (some ℕ.zero) = none
given (some (ℕ.suc n)) = some (ℕ.suc n)

-- The backoffice's number of a card is a text in the table; here an absent or empty text is `none`,
-- and any number that is there is taken.
abbrev pub backoffice_id : Option Card → Option ℕ
backoffice_id none = none
backoffice_id (some c) = c.prospera_card_id

abbrev pub with_card_status : CardStatus → Card → Card
with_card_status status c = record c { status = status }

abbrev pub with_user : ℕ → Card → Card
with_user user c = record c { user_id = some user }

module _ (env : CardServices) where
  unfoldable pub stop_card : ℕ → Action CardStore ℕ
  stop_card id = do
    found ← get_card_by_id id
    key ← or_throw (backoffice_id found) (plain "Card not found or missing prosperaCardId")
    ask_cards (CardCall.stop key) (λ calls. env.confirm calls key)
    update_card id (with_card_status blocked)
    pure key

  unfoldable pub unstop_card : ℕ → Action CardStore ℕ
  unstop_card id = do
    found ← get_card_by_id id
    key ← or_throw (backoffice_id found) (plain "Card not found or missing prosperaCardId")
    ask_cards (CardCall.unstop key) (λ calls. env.confirm calls key)
    update_card id (with_card_status active)
    pure key

  unfoldable pub unlink_user_card : ℕ → Action CardStore (Unit {0})
  unlink_user_card id = do
    found ← get_card_by_id id
    card ← or_throw found (bad_request "Card not found")
    or_throw (given card.user_id) (bad_request "Card is already unlinked")
    key ← or_throw card.prospera_card_id (bad_request "Card not found or missing prosperaCardId")
    ask_cards (CardCall.retire key) (λ calls. env.confirm calls key)
    unlink_card id

unfoldable pub assign_card : (user : ℕ) (card_identifier : String) → Action CardStore (Unit {0})
assign_card user identifier = do
  found ← get_card_by_identifier identifier
  card ← or_throw found (bad_request "Card not found")
  throw_if (is_some (given card.user_id)) (bad_request "Card already assigned")
  update_card_by_identifier identifier (with_user user)
