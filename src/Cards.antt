-- ===== src/Cards.antt =====
-- src/services/card.service.ts, src/repositories/card.repository.ts, the guards
-- src/middlewares/validateCardOwnership.ts and src/middlewares/validateCardPin.ts: the cards.
pub mod Service
pub mod Masking
pub mod Masked
pub mod Orders
pub mod Request
pub mod Requested
pub mod Stock
pub mod Kept
pub mod Issued
pub mod Linked
pub mod Refused
pub mod Guards
pub mod Status
pub mod Counts
pub mod Access
pub mod Assigned
pub mod Authorized
mod Tests
mod RequestTests
use banking_mobile_backend.Prelude.{
  ℕ, String, Bool, true, false, ◌&&◌, ◌||◌, not, ◌+◌, Option, none, some, List, [], ◌∷◌, ◌++◌, ◌==◌,
  str_eq, if◌then◌else◌, is_some, find, update_where, select, any, database, Result, ok, err,
  Action, ◌>>=◌, ◌>>◌, pure, gets,
}

pub data CardType : Type 0 where
  physical virtual : CardType

pub data CardStatus : Type 0 where
  active inactive pending blocked expired : CardStatus

-- A row of `Cards`; `created_at` is in milliseconds, the id at the backoffice, a text of digits in
-- the table, is a number here, and `reference_batch` is that of its bulk batch.
pub record Card : Type 0 where
  pub id : ℕ
  pub user_id : Option ℕ
  pub card_identifier : String
  pub card_type : CardType
  pub status : CardStatus
  pub prospera_card_id : Option ℕ
  pub masked_number : Option String
  pub reference_batch : Option String
  pub created_at : ℕ

pub data CardCall : Type 0 where
  stop : ℕ → CardCall
  unstop : ℕ → CardCall
  retire : ℕ → CardCall
  view_pin : ℕ → CardCall

pub record CardStore : Type 0 where
  pub cards : List Card
  pub calls : List CardCall

abbrev pub is_physical : CardType → Bool
is_physical CardType.physical = true
is_physical CardType.virtual = false

abbrev pub has_card_id : ℕ → Card → Bool
has_card_id id c = c.id == id

abbrev pub has_identifier : String → Card → Bool
has_identifier identifier c = str_eq c.card_identifier identifier

abbrev pub is_user : ℕ → Option ℕ → Bool
is_user user none = false
is_user user (some u) = u == user

unfoldable pub get_card_by_id : ℕ → Action CardStore (Option Card)
get_card_by_id id = gets (λ s. find (has_card_id id) s.cards)

unfoldable pub get_card_by_identifier : String → Action CardStore (Option Card)
get_card_by_identifier identifier = gets (λ s. find (has_identifier identifier) s.cards)

-- `db.cards.update({ where: { id }, data })`
unfoldable pub update_card : ℕ → (Card → Card) → Action CardStore (Unit {0})
unfolding find update_where
update_card id change s = elim (find (has_card_id id) s.cards) [
  | none ↦ (err (database "Record to update not found."), s)
  | some c ↦ (ok tt, record s { cards = update_where (has_card_id id) change s.cards })
]

-- `updateMany`: no row is no error.
unfoldable pub update_card_by_identifier : String → (Card → Card) → Action CardStore (Unit {0})
unfolding update_where
update_card_by_identifier identifier change s =
    (ok tt, record s { cards = update_where (has_identifier identifier) change s.cards })

unfoldable pub unlinked : Card → Card
unlinked c = record c { user_id = none; status = inactive }

unfoldable pub unlink_card : ℕ → Action CardStore (Unit {0})
unlink_card id = update_card id unlinked

abbrev pub requested_or_active : CardStatus → Bool
requested_or_active CardStatus.active = true
requested_or_active CardStatus.inactive = true
requested_or_active _ = false

abbrev pub in_inventory : CardStatus → Bool
in_inventory CardStatus.pending = true
in_inventory CardStatus.inactive = true
in_inventory _ = false

unfoldable pub find_existing_physical_card : ℕ → Action CardStore (Option Card)
find_existing_physical_card user = gets (λ s.
    find (λ c. is_user user c.user_id && is_physical c.card_type && requested_or_active c.status)
      s.cards)

unfoldable pub find_available_physical_cards : Action CardStore (List Card)
find_available_physical_cards = gets (λ s.
    select (λ c. not (is_some c.user_id) && is_physical c.card_type && in_inventory c.status)
      s.cards)
