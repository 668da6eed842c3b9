-- ===== src/Cards/Guards.antt =====
-- src/middlewares/validateCardOwnership.ts and src/middlewares/validateCardPin.ts: what a request
-- about a card passes before its handler runs.
use banking_mobile_backend.Prelude.{
  ℕ, String, not, str_eq, if◌then◌else◌, truthy, not_found, forbidden, internal_server,
  unauthorized, Action, ◌>>=◌, pure, or_throw, throw_if,
}
use banking_mobile_backend.Cards.{CardCall, CardStore, is_user, is_physical, get_card_by_id}
use banking_mobile_backend.Cards.Service.{CardServices, ask_cards}

-- `user` is the user of the token.
unfoldable pub validate_card_ownership : (user card_id : ℕ) → Action CardStore (Unit {0})
validate_card_ownership user id = do
  found ← get_card_by_id id
  card ← or_throw found (not_found "Card inválida")
  throw_if (not (is_user user card.user_id)) (forbidden "Unauthorized access to card")

unfoldable pub check_pin : CardServices → String → ℕ → Action CardStore (Unit {0})
check_pin env pin key = do
  answer ← ask_cards (CardCall.view_pin key) (λ calls. env.view_pin calls key)
  remote ← or_throw (truthy answer) (internal_server "Unable to retrieve pin for card")
  throw_if (not (str_eq remote pin)) (unauthorized "Invalid PIN")

unfoldable pub validate_card_pin :
    CardServices → (pin : String) (card_id : ℕ) → Action CardStore (Unit {0})
validate_card_pin env pin id = do
  found ← get_card_by_id id
  card ← or_throw found (not_found "Card inválida")
  key ← or_throw card.prospera_card_id (not_found "Card inválida")
  if is_physical card.card_type then check_pin env pin key else pure tt
