-- ===== src/Cards/RequestTests.antt =====
-- The theorems on requested cards and on masks at concrete values.
use banking_mobile_backend.Prelude.{
  All, any, ◌≡◌, refl, true, none, some, [], ◌∷◌, ok, find, update_where, select, ◌>>=◌,
}
use banking_mobile_backend.Prelude.Unique.{Distinct, insert_row}
use banking_mobile_backend.Cards.{
  Card, physical, active, inactive, update_card, find_existing_physical_card,
  find_available_physical_cards,
}
use banking_mobile_backend.Cards.Status.{get_card_status_by_user, card_status, newest_first}
use banking_mobile_backend.Cards.Orders.{
  BulkPayload, create_card, create_batch, slan, CardUser, RequestPhysicalCardRequest, RequestHost,
  RequestStore, RequestPhysicalCardResponse, in_cards, card_clash, create_pickup,
}
use banking_mobile_backend.Cards.Request.{
  order_card, post_bulk_order, requested_card, request_physical_card, give_card, finish_request,
  delivery_location,
}
use banking_mobile_backend.Cards.Requested.{IsRequested, request_physical_card-IsRequested}
use banking_mobile_backend.Cards.Kept.{HasCard, request_physical_card-HasCard}
use banking_mobile_backend.Cards.Issued.{
  NotifiedCard, BulkNotification, link_number, link_notified, handle_bulk_order_card_notification,
}
use banking_mobile_backend.Cards.Linked.{IsLinked, handle_bulk_order_card_notification-IsLinked}
use banking_mobile_backend.Cards.Refused.{IsRefused, order_card-IsRefused}
use banking_mobile_backend.Cards.Masking.{format_masked_number}
use banking_mobile_backend.Cards.Masked.{ShowsLast, format_masked_number-ShowsLast}

abbrev owned : Card
owned = record {
  id = 1;
  user_id = some 5;
  card_identifier = "PHYSICAL_1";
  card_type = physical;
  status = active;
  prospera_card_id = some 70;
  masked_number = none;
  reference_batch = none;
  created_at = 10;
}

abbrev in_stock : Card
in_stock = record owned {
  id = 2;
  user_id = none;
  card_identifier = "PHYSICAL_2";
  status = inactive;
  prospera_card_id = none;
}

abbrev client : CardUser
client = record { id = 6; first_name = some "Ana"; last_name = none; phone = none; pin = none }

abbrev store : RequestStore
store = record {
  cards = record { cards = owned ∷ in_stock ∷ []; calls = [] };
  next_card = 3;
  users = client ∷ [];
  batches = [];
  pickups = [];
  orders = [];
}

abbrev host : RequestHost
host = record {
  now = 100;
  pick = λ n. 0;
  number_text = λ t. t;
  identifier = "PHYSICAL_3";
  bulk_order = λ orders order. ok none;
}

abbrev request : RequestPhysicalCardRequest
request = record { billing_address = none; pickup_location = none }

abbrev after : RequestStore
after = (request_physical_card host 6 slan request store).1

abbrev answer : RequestPhysicalCardResponse
answer = record {
  card_id = 2;
  card_identifier = "PHYSICAL_2";
  pickup_location = none;
  card_status = card_status 100 (newest_first (record in_stock { user_id = some 6 } ∷ []));
}

request_run : request_physical_card host 6 slan request store ≡ (ok answer, after)
unfolding request_physical_card give_card finish_request delivery_location update_card in_cards
    find_existing_physical_card find_available_physical_cards create_pickup get_card_status_by_user
    find update_where select ◌>>=◌
request_run = refl

request_physical_card-IsRequested_example : IsRequested 6 answer after
request_physical_card-IsRequested_example =
    request_physical_card-IsRequested host 6 slan request store request_run

store-Distinct : Distinct (λ (c : Card). c.id) card_clash store.cards.cards
store-Distinct = ((record { ids = refl; free = refl }, tt), (tt, tt))

owned_kept : HasCard owned store
unfolding find
owned_kept = refl

request_physical_card-HasCard_example :
    HasCard owned (request_physical_card host 6 slan request store).1
request_physical_card-HasCard_example =
    request_physical_card-HasCard owned host 6 slan request store store-Distinct owned_kept refl

format_masked_number-ShowsLast_example :
    ShowsLast (some "4111 1111 1111 1234") (format_masked_number (some "4111 1111 1111 1234") true)
format_masked_number-ShowsLast_example =
    format_masked_number-ShowsLast (some "4111 1111 1111 1234") true

-- A notification of the bulk order of the card in stock.
abbrev notified : NotifiedCard
notified = record { card_identifier = "PHYSICAL_2"; card_id = some 80 }

abbrev notification : BulkNotification
notification = record {
  batch = record { reference_batch = "b1"; status = 1 };
  cards = notified ∷ [];
}

abbrev linked_store : RequestStore
linked_store = (handle_bulk_order_card_notification notification store).1

notification_run : handle_bulk_order_card_notification notification store ≡ (ok tt, linked_store)
unfolding handle_bulk_order_card_notification link_notified link_number create_batch in_cards any
    update_where ◌>>=◌
notification_run = refl

handle_bulk_order_card_notification-IsLinked_example :
    All (IsLinked linked_store.cards.cards) notification.cards
handle_bulk_order_card_notification-IsLinked_example =
    handle_bulk_order_card_notification-IsLinked notification store (tt, tt) notification_run

-- An order, as the inventory is empty.
abbrev payload : BulkPayload
payload = record {
  reference_batch = some "b7";
  reference = none;
  camel_reference = none;
  status = 0;
}

abbrev ordering_host : RequestHost
ordering_host = record host { bulk_order = λ orders order. ok (some payload) }

abbrev ordered : RequestStore
ordered = (order_card ordering_host client slan request store).1

abbrev order_answer : RequestPhysicalCardResponse
order_answer = record {
  card_id = 3;
  card_identifier = "PHYSICAL_3";
  pickup_location = none;
  card_status = card_status 100 (newest_first (requested_card ordering_host 6 "b7" 3 ∷ []));
}

order_run : order_card ordering_host client slan request store ≡ (ok order_answer, ordered)
unfolding order_card delivery_location post_bulk_order create_batch create_card insert_row
    finish_request create_pickup in_cards get_card_status_by_user any select ◌>>=◌
order_run = refl

order_card-IsRefused_example : IsRefused ordering_host store ordered
order_card-IsRefused_example =
    order_card-IsRefused ordering_host client slan request store order_run
