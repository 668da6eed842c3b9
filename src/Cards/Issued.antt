-- ===== src/Cards/Issued.antt =====
-- src/services/card.service.ts: activation, details, security code and virtual cards; and
-- src/services/webhooks.service.ts, handleBulkOrderCardNotification.
use banking_mobile_backend.Prelude.{
  select, map, gets, ℕ, String, Bool, true, false, not, ◌&&◌, ◌==◌, if◌then◌else◌, Option, none,
  some, List, [], ◌∷◌, or_else, find, update_where, any, plain, type_error, database, Result, ok,
  err, Action, ◌>>=◌, ◌>>◌, pure, or_throw,
}
use banking_mobile_backend.Cards.{
  is_user, Card, CardStore, CardType, physical, virtual, active, has_identifier, get_card_by_id,
  update_card,
}
use banking_mobile_backend.Cards.Service.{given, backoffice_id}
use banking_mobile_backend.Cards.Masking.{format_masked_number}
use banking_mobile_backend.Cards.Orders.{
  BulkBatch, RequestStore, in_cards, create_card, create_batch, same_number,
}

-- The row of `BackofficeCustomerProfile`: its wallet.
pub record WalletProfile : Type 0 where
  pub user_id : ℕ
  pub ewallet_id : Option ℕ

pub data IssueCall : Type 0 where
  activate : (identifier reference pin : String) (customer ewallet : ℕ) → IssueCall
  card_info : (customer card : ℕ) → IssueCall
  update_cvv : (card : ℕ) → IssueCall
  linked_card : (ewallet : ℕ) → IssueCall

pub record CardInfo : Type 0 where
  pub card_number : Option String
  pub cvv : String

pub record UpdatedCvv : Type 0 where
  pub cvv2 : String
  pub expiration_time_in_minutes : ℕ

pub record ShownCvv : Type 0 where
  pub cvv : String
  pub expiration_time_in_minutes : Option ℕ

pub record LinkedCard : Type 0 where
  pub card_id : ℕ
  pub card_number : String

-- The answers of the backoffice; those on a card's information may lack the payload or its cards.
pub record IssueHost : Type 0 where
  pub activate : List IssueCall → IssueCall → Result ℕ
  pub card_info : List IssueCall → ℕ → Result (Option (Option (List CardInfo)))
  pub update_cvv : List IssueCall → ℕ → Result UpdatedCvv
  pub linked_card : List IssueCall → ℕ → Result LinkedCard
  pub now : ℕ
  pub identifier : ℕ → String

pub record IssueStore : Type 0 where
  pub requests : RequestStore
  pub wallets : List WalletProfile
  pub calls : List IssueCall

unfoldable pub in_requests : {A : Type 0} → Action RequestStore A → Action IssueStore A
in_requests m s = let (r, requests) = m s.requests in (r, record s { requests = requests })

-- An operation on the table of cards.
unfoldable pub on_cards : {A : Type 0} → Action CardStore A → Action IssueStore A
unfolding in_requests in_cards
on_cards m = in_requests (in_cards m)

unfoldable pub ask_issue :
    {A : Type 0} → IssueCall → (List IssueCall → Result A) → Action IssueStore A
ask_issue call answer s = (answer s.calls, record s { calls = call ∷ s.calls })

abbrev pub ewallet_of_row : Option WalletProfile → Option ℕ
ewallet_of_row none = none
ewallet_of_row (some p) = given p.ewallet_id

-- `findProfileByUserId(userId)` with the wallet; a card without a user is an error of the client.
unfoldable pub find_ewallet : Option ℕ → Action IssueStore ℕ
unfolding find
find_ewallet none s = (err (database "Argument userId must not be null."), s)
find_ewallet (some user) s = (
  elim (ewallet_of_row (find (λ (p : WalletProfile). p.user_id == user) s.wallets)) [
    | none ↦ err (plain "User ewallet not found")
    | some ewallet ↦ ok ewallet
  ],
  s,
)

abbrev pub first_card : Option (Option (List CardInfo)) → Option CardInfo
first_card (some (some (c ∷ cs))) = some c
first_card _ = none

abbrev pub activated : ℕ → CardInfo → Card → Card
activated key info c = record c {
  prospera_card_id = some key;
  status = active;
  masked_number = some (format_masked_number info.card_number false);
}

-- A missing card, a missing payload and an empty list fail with messages of their own.
abbrev pub details_error : Option (Option (List CardInfo)) → String
details_error none = "Invalid response from card service: missing payload"
details_error (some cards) = "No card information found in response"

module _ (host : IssueHost) where
  unfoldable pub ask_card_info :
      (customer card : ℕ) → Action IssueStore (Option (Option (List CardInfo)))
  ask_card_info customer key =
      ask_issue (IssueCall.card_info customer key) (λ calls. host.card_info calls key)

  unfoldable pub activate_card : (id : ℕ) (pin : String) (customer : ℕ) → Action IssueStore ℕ
  activate_card id pin customer = do
    found ← on_cards (get_card_by_id id)
    card ← or_throw found (plain "Card not found")
    ewallet ← find_ewallet card.user_id
    reference ←
        or_throw card.reference_batch
          (type_error "Cannot read properties of null (reading 'referenceBatch')")
    let call = IssueCall.activate card.card_identifier reference pin customer ewallet
    key ← ask_issue call (λ calls. host.activate calls call)
    answer ← ask_card_info customer key
    info ← or_throw (first_card answer) (type_error "Cannot read properties of undefined")
    on_cards (update_card id (activated key info))
    pure key

  unfoldable pub get_card_details_by_id : (id customer : ℕ) → Action IssueStore CardInfo
  get_card_details_by_id id customer = do
    found ← on_cards (get_card_by_id id)
    key ← or_throw (backoffice_id found) (plain "Card not found or invalid prosperaCardId")
    answer ← ask_card_info customer key
    or_throw (first_card answer) (plain (details_error answer))

  unfoldable pub update_card_cvv : (id : ℕ) → Action IssueStore UpdatedCvv
  update_card_cvv id = do
    found ← on_cards (get_card_by_id id)
    key ← or_throw (backoffice_id found) (plain "Card not found or missing prosperaCardId")
    ask_issue (IssueCall.update_cvv key) (λ calls. host.update_cvv calls key)

  -- `strategies[card.cardType]()`
  unfoldable pub show_by_type : CardType → (id customer : ℕ) → Action IssueStore ShownCvv
  show_by_type physical id customer = do
    details ← get_card_details_by_id id customer
    pure (record { cvv = details.cvv; expiration_time_in_minutes = none })
  show_by_type virtual id customer = do
    updated ← update_card_cvv id
    pure (record {
      cvv = updated.cvv2;
      expiration_time_in_minutes = some updated.expiration_time_in_minutes;
    })

  unfoldable pub show_card_cvv : (id customer : ℕ) → Action IssueStore ShownCvv
  show_card_cvv id customer = do
    found ← on_cards (get_card_by_id id)
    card ← or_throw found (plain "Card not found")
    show_by_type card.card_type id customer

  abbrev pub virtual_card : ℕ → LinkedCard → ℕ → Card
  virtual_card user linked id = record {
    id = id;
    user_id = some user;
    card_identifier = host.identifier user;
    card_type = virtual;
    status = active;
    prospera_card_id = some linked.card_id;
    masked_number = some (format_masked_number (some linked.card_number) true);
    reference_batch = none;
    created_at = host.now;
  }

  unfoldable pub create_virtual_card : ℕ → Action IssueStore LinkedCard
  create_virtual_card user = do
    ewallet ← find_ewallet (some user)
    linked ← ask_issue (IssueCall.linked_card ewallet) (λ calls. host.linked_card calls ewallet)
    in_requests (create_card (virtual_card user linked))
    pure linked

-- The rows of the user with a mask in place of the number.
abbrev pub masked : Card → Card
masked c = record c {
  masked_number = some (format_masked_number (some (or_else c.masked_number "")) true);
}

unfoldable pub get_user_cards : ℕ → Action CardStore (List Card)
unfolding select
get_user_cards user = gets (λ s. map masked (select (λ c. is_user user c.user_id) s.cards))

pub record NotifiedCard : Type 0 where
  pub card_identifier : String
  pub card_id : Option ℕ

pub record BulkNotification : Type 0 where
  pub batch : BulkBatch
  pub cards : List NotifiedCard

abbrev pub with_number : ℕ → Card → Card
with_number key c = record c { prospera_card_id = some key }

-- Another card has the number.
abbrev pub number_taken : String → ℕ → Card → Bool
number_taken identifier key c =
    not (has_identifier identifier c) && same_number c.prospera_card_id (some key)

-- `updateCardByIdentifier(card_identifier, { prosperaCardId })`, whose column is unique.
unfoldable pub link_number : String → ℕ → Action CardStore (Unit {0})
unfolding any update_where
link_number identifier key s =
    if any (has_identifier identifier) s.cards && any (number_taken identifier key) s.cards
    then (err (database "Unique constraint failed"), s)
    else (
      ok tt,
      record s { cards = update_where (has_identifier identifier) (with_number key) s.cards },
    )

unfoldable pub link_notified : List NotifiedCard → Action CardStore (Unit {0})
link_notified [] = pure tt
link_notified (c ∷ cs) =
    elim (given c.card_id) [ none ↦ pure tt | some key ↦ link_number c.card_identifier key ]
    >> link_notified cs

unfoldable pub handle_bulk_order_card_notification :
    BulkNotification → Action RequestStore (Unit {0})
handle_bulk_order_card_notification n = create_batch n.batch >> in_cards (link_notified n.cards)
