-- ===== src/Cards/Tests.antt =====
-- The theorems on the cards at a concrete table.
use banking_mobile_backend.Prelude.{
  ℕ, ◌≡◌, ◌≢◌, refl, none, some, [], ◌∷◌, ok, err, bad_request, find, update_where, ◌>>=◌, inl,
}
use banking_mobile_backend.Cards.{
  Card, CardStore, physical, active, inactive, has_card_id, get_card_by_identifier, get_card_by_id,
  update_card, update_card_by_identifier,
}
use banking_mobile_backend.Cards.Service.{CardServices, assign_card, ask_cards, stop_card}
use banking_mobile_backend.Cards.Status.{CardStatusResponse, get_card_status_by_user}
use banking_mobile_backend.Cards.Counts.{IsTally, get_card_status_by_user-IsTally}
use banking_mobile_backend.Cards.Access.{
  HasRow, stop_route, unstop_route, unlink_route, routes-HasRow,
}
use banking_mobile_backend.Cards.Authorized.{IsAuthorized, routes-IsAuthorized}
use banking_mobile_backend.Cards.Guards.{validate_card_ownership, validate_card_pin, check_pin}
use banking_mobile_backend.Cards.Assigned.{assign_card-once}

abbrev card : Card
card = record {
  id = 1;
  user_id = some 5;
  card_identifier = "PHYSICAL_1";
  card_type = physical;
  status = active;
  prospera_card_id = some 70;
  masked_number = none;
  reference_batch = none;
  created_at = 10;
}

abbrev free_card : Card
free_card = record card {
  id = 2;
  user_id = none;
  card_identifier = "PHYSICAL_2";
  status = inactive;
  prospera_card_id = none;
}

abbrev table : CardStore
table = record { cards = card ∷ free_card ∷ []; calls = [] }

abbrev services : CardServices
services = record { confirm = λ calls key. ok tt; view_pin = λ calls key. ok (some "1234") }

get_card_status_by_user-IsTally_example :
    (r : CardStatusResponse) × (get_card_status_by_user 20 5 table ≡ (ok r, table))
    × IsTally 5 table.cards r
get_card_status_by_user-IsTally_example = get_card_status_by_user-IsTally 20 5 table

card_found : find (has_card_id card.id) table.cards ≡ some card
unfolding find
card_found = refl

routes-HasRow_example :
    HasRow card (stop_route services 6 1 "1234" table).1
    × HasRow card (unstop_route services 6 1 "1234" table).1
    × HasRow card (unlink_route services 6 1 table).1
routes-HasRow_example = routes-HasRow services 6 1 "1234" card table card_found refl

abbrev assigned : CardStore
assigned = (assign_card 6 "PHYSICAL_2" table).1

assign_run : assign_card 6 "PHYSICAL_2" table ≡ (ok tt, assigned)
unfolding assign_card get_card_by_identifier update_card_by_identifier find update_where ◌>>=◌
assign_run = refl

abbrev user : ℕ
user = 6

user-ne-zero : user ≢ 0
user-ne-zero h = cc

assign_card-once_example :
    assign_card 7 "PHYSICAL_2" assigned ≡ (err (bad_request "Card already assigned"), assigned)
assign_card-once_example = assign_card-once 6 7 "PHYSICAL_2" table user-ne-zero assign_run

abbrev stopped : CardStore
stopped = (stop_route services 5 1 "1234" table).1

stop_run : stop_route services 5 1 "1234" table ≡ (ok 70, stopped)
unfolding stop_route validate_card_ownership validate_card_pin check_pin ask_cards stop_card
    get_card_by_id update_card find update_where ◌>>=◌
stop_run = refl

routes-IsAuthorized_example : IsAuthorized services 5 1 "1234" table
routes-IsAuthorized_example =
    routes-IsAuthorized services 5 1 "1234" table 70 stopped (inl stop_run)
