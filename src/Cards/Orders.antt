-- ===== src/Cards/Orders.antt =====
-- The data of a request of a physical card, with src/repositories/cardPickup.repository.ts,
-- src/repositories/bulkBatch.repository.ts and createCard of src/repositories/card.repository.ts.
use banking_mobile_backend.Prelude.{
  ℕ, String, suc, Bool, false, ◌||◌, Option, none, some, List, [], ◌∷◌, ◌==◌, str_eq, if◌then◌else◌,
  any, database, Result, ok, err, Action,
}
use banking_mobile_backend.Prelude.Unique.{insert_row}
use banking_mobile_backend.Cards.{Card, CardStore}
use banking_mobile_backend.Cards.Status.{CardStatusResponse}

pub data DeliveryType : Type 0 where
  home slan : DeliveryType

-- The columns of a user that the request reads.
pub record CardUser : Type 0 where
  pub id : ℕ
  pub first_name : Option String
  pub last_name : Option String
  pub phone : Option String
  pub pin : Option String

pub record BillingAddress : Type 0 where
  pub first_name : String
  pub last_name : String
  pub street : String
  pub exterior_number : String
  pub interior_number : Option String
  pub neighborhood : String
  pub city : String
  pub state : String
  pub postal_code : String
  pub phone : String
  pub additional_notes : Option String

pub record RequestPhysicalCardRequest : Type 0 where
  pub billing_address : Option BillingAddress
  pub pickup_location : Option String

-- `mobile` is the text of a number.
pub record DeliveryLocation : Type 0 where
  pub first_names : String
  pub last_names : String
  pub street : String
  pub exterior_number : String
  pub interior_number : String
  pub neighborhood : String
  pub city : String
  pub state : String
  pub postal_code : String
  pub mobile : String
  pub additional_notes : String

-- A row of `CardPickup`: `location` stands for its columns of the address.
pub record CardPickup : Type 0 where
  pub user_id : ℕ
  pub card_id : ℕ
  pub location : DeliveryLocation
  pub additional_notes : String
  pub is_slan_point : Bool

pub record BulkBatch : Type 0 where
  pub reference_batch : String
  pub status : ℕ

pub record BulkOrder : Type 0 where
  pub delivery_location : DeliveryLocation
  pub card_identifier : String
  pub pin : String

-- The payload of an answer; an absent status is 0.
pub record BulkPayload : Type 0 where
  pub reference_batch : Option String
  pub reference : Option String
  pub camel_reference : Option String
  pub status : ℕ

-- `pick n` is the drawn index below `n`, `number_text` is `String(Number(t))`, and `identifier` is
-- the generated one.
pub record RequestHost : Type 0 where
  pub now : ℕ
  pub pick : ℕ → ℕ
  pub number_text : String → String
  pub identifier : String
  pub bulk_order : List BulkOrder → BulkOrder → Result (Option BulkPayload)

pub record RequestStore : Type 0 where
  pub cards : CardStore
  pub next_card : ℕ
  pub users : List CardUser
  pub batches : List BulkBatch
  pub pickups : List CardPickup
  pub orders : List BulkOrder

pub record RequestPhysicalCardResponse : Type 0 where
  pub card_id : ℕ
  pub card_identifier : String
  pub pickup_location : Option String
  pub card_status : CardStatusResponse

-- An operation on the cards alone.
unfoldable pub in_cards : {A : Type 0} → Action CardStore A → Action RequestStore A
in_cards m s = let (r, cards) = m s.cards in (r, record s { cards = cards })

-- The unique columns of a card.
abbrev pub same_number : Option ℕ → Option ℕ → Bool
same_number (some a) (some b) = a == b
same_number _ _ = false

abbrev pub card_clash : Card → Card → Bool
card_clash c d =
    str_eq c.card_identifier d.card_identifier || same_number c.prospera_card_id d.prospera_card_id

abbrev with_new_card : RequestStore → Card → Result (List Card) → Result Card × RequestStore
with_new_card s c (ok cards) =
    (ok c, record s { cards = record s.cards { cards = cards }; next_card = suc s.next_card })
with_new_card s c (err e) = (err e, s)

unfoldable pub create_card : (ℕ → Card) → Action RequestStore Card
create_card row s =
    let c = row s.next_card in
    with_new_card s c (insert_row (λ (d : Card). d.id) card_clash c s.cards.cards)

unfoldable pub create_batch : BulkBatch → Action RequestStore (Unit {0})
unfolding any
create_batch b s =
    if any (λ (c : BulkBatch). str_eq c.reference_batch b.reference_batch) s.batches
    then (err (database "Unique constraint failed"), s)
    else (ok tt, record s { batches = b ∷ s.batches })

unfoldable pub create_pickup : CardPickup → Action RequestStore (Unit {0})
create_pickup p s = (ok tt, record s { pickups = p ∷ s.pickups })

abbrev pub item_at : {A : Type 0} → ℕ → List A → Option A
item_at n [] = none
item_at ℕ.zero (x ∷ xs) = some x
item_at (ℕ.suc n) (x ∷ xs) = item_at n xs
