-- ===== src/Cards/Request.antt =====
-- src/services/card.service.ts, requestPhysicalCard: a physical card from the inventory or, when there
-- is none, by an order at the backoffice.
use Prim.Native.String.{◌++◌}
use banking_mobile_backend.Prelude.{
  ℕ, String, Bool, true, false, Option, none, some, List, [], ◌∷◌, ◌==◌, if◌then◌else◌, is_some,
  or_else, truthy, first_some, length, find, plain, type_error, Action, ◌>>=◌, ◌>>◌, pure, gets,
  or_throw, throw_if,
}
use banking_mobile_backend.Cards.{
  Card, physical, pending, update_card, find_existing_physical_card, find_available_physical_cards,
}
use banking_mobile_backend.Cards.Orders.{
  DeliveryType, home, slan, CardUser, BillingAddress, RequestPhysicalCardRequest, DeliveryLocation,
  BulkOrder, BulkPayload, RequestHost, RequestStore, RequestPhysicalCardResponse, in_cards,
  create_card, create_batch, create_pickup, item_at,
}
use banking_mobile_backend.Cards.Service.{with_user}
use banking_mobile_backend.Cards.Status.{get_card_status_by_user}

abbrev pub pickup_notes : Option String → String → String
pickup_notes location default = elim (truthy location) [
  | none ↦ default
  | some l ↦ "Pickup location: " ++ l
]

module _ (host : RequestHost) where
  slan_location : CardUser → Option String → DeliveryLocation
  slan_location user pickup = record {
    first_names = or_else (truthy user.first_name) "Cliente";
    last_names = or_else (truthy user.last_name) "Prospera";
    street = "Alcatraz M61 L1, jardines del sur 5";
    exterior_number = "5";
    interior_number = "21";
    neighborhood = "Jardines del sur 5";
    city = "Cancún";
    state = "Quintana Roo";
    postal_code = "77536";
    mobile = elim (truthy user.phone) [ none ↦ "9983940931" | some phone ↦ host.number_text phone ];
    additional_notes = pickup_notes pickup "Delivery to Slan point";
  }

  home_location : BillingAddress → Option String → DeliveryLocation
  home_location a pickup = record {
    first_names = a.first_name;
    last_names = a.last_name;
    street = a.street;
    exterior_number = a.exterior_number;
    interior_number = or_else (truthy a.interior_number) "1";
    neighborhood = a.neighborhood;
    city = a.city;
    state = a.state;
    postal_code = a.postal_code;
    mobile = host.number_text a.phone;
    additional_notes =
        or_else (truthy a.additional_notes)
          (pickup_notes pickup "Physical card requested via mobile app");
  }

  -- `deliveryTypeHandlers[deliveryType]()`; the validated type has no third value.
  unfoldable pub delivery_location :
      CardUser → DeliveryType → RequestPhysicalCardRequest → Action RequestStore DeliveryLocation
  unfolding slan_location home_location
  delivery_location user slan request = pure (slan_location user request.pickup_location)
  delivery_location user home request = do
    address ←
        or_throw request.billing_address (plain "Billing address is required for home delivery")
    pure (home_location address request.pickup_location)

  abbrev pub notes_of : DeliveryType → DeliveryLocation → String
  notes_of slan location = "Universidad Anáhuac"
  notes_of home location = location.additional_notes

  abbrev pub is_slan : DeliveryType → Bool
  is_slan slan = true
  is_slan home = false

  unfoldable pub post_bulk_order : BulkOrder → Action RequestStore (Option BulkPayload)
  post_bulk_order order s = (host.bulk_order s.orders order, record s { orders = order ∷ s.orders })

  abbrev pub reference_of : Option BulkPayload → Option String
  reference_of none = none
  reference_of (some p) =
      first_some (truthy p.reference_batch)
        (first_some (truthy p.reference) (truthy p.camel_reference))

  -- `payload.status || 1`
  abbrev pub batch_status : Option BulkPayload → ℕ
  batch_status none = 1
  batch_status (some p) = if p.status == 0 then 1 else p.status

  abbrev pub requested_card : (user : ℕ) (reference : String) (id : ℕ) → Card
  requested_card user reference id = record {
    id = id;
    user_id = some user;
    card_identifier = host.identifier;
    card_type = physical;
    status = pending;
    prospera_card_id = none;
    masked_number = none;
    reference_batch = some reference;
    created_at = host.now;
  }

  module _ (user : CardUser) (delivery : DeliveryType) (request : RequestPhysicalCardRequest) where
    -- The pickup of a card, and the answer.
    unfoldable pub finish_request :
        Card → DeliveryLocation → Action RequestStore RequestPhysicalCardResponse
    finish_request card location = do
      create_pickup (record {
        user_id = user.id;
        card_id = card.id;
        location = location;
        additional_notes = notes_of delivery location;
        is_slan_point = is_slan delivery;
      })
      status ← in_cards (get_card_status_by_user host.now user.id)
      pure (record {
        card_id = card.id;
        card_identifier = card.card_identifier;
        pickup_location = request.pickup_location;
        card_status = status;
      })

    unfoldable pub give_card : List Card → Action RequestStore RequestPhysicalCardResponse
    give_card available = do
      selected ←
          or_throw (item_at (host.pick (length available)) available)
            (type_error "Cannot read properties of undefined (reading 'id')")
      in_cards (update_card selected.id (with_user user.id))
      location ← delivery_location user delivery request
      finish_request selected location

    unfoldable pub order_card : Action RequestStore RequestPhysicalCardResponse
    order_card = do
      location ← delivery_location user delivery request
      let pin = or_else (truthy user.pin) "1234"
      answer ←
          post_bulk_order
            (record { delivery_location = location; card_identifier = host.identifier; pin = pin })
      reference ←
          or_throw (reference_of answer) (plain "Failed to get reference batch from backoffice")
      create_batch (record { reference_batch = reference; status = batch_status answer })
      card ← create_card (requested_card user.id reference)
      finish_request card location

    abbrev pub supply : List Card → Action RequestStore RequestPhysicalCardResponse
    supply [] = order_card
    supply (c ∷ cs) = give_card (c ∷ cs)

  unfoldable pub request_physical_card :
      ℕ
      → DeliveryType
      → RequestPhysicalCardRequest
      → Action RequestStore RequestPhysicalCardResponse
  request_physical_card user delivery request = do
    found ← gets (λ s. find (λ (u : CardUser). u.id == user) s.users)
    known ← or_throw found (plain "User not found")
    existing ← in_cards (find_existing_physical_card user)
    throw_if (is_some existing) (plain "You already have a physical card requested or active")
    available ← in_cards find_available_physical_cards
    supply known delivery request available
