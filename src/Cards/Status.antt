-- ===== src/Cards/Status.antt =====
-- src/repositories/card.repository.ts, `getCardStatusByUser`.
use banking_mobile_backend.Prelude.{
  ℕ, String, Bool, true, false, ◌||◌, ◌+◌, ◌-◌, ◌*◌, ltb, Option, List, [], ◌∷◌, map, if◌then◌else◌,
  is_some, truthy, select, Action, gets,
}
use banking_mobile_backend.Cards.{Card, CardType, CardStatus, CardStore, is_user}

-- The counters of one kind of card.
pub record Counts : Type 0 where
  pub active : ℕ
  pub inactive : ℕ
  pub blocked : ℕ
  pub expired : ℕ
  pub total : ℕ

abbrev pub zero_counts : Counts
zero_counts = record { active = 0; inactive = 0; blocked = 0; expired = 0; total = 0 }

pub data CardUserStatus : Type 0 where
  active inactive pending blocked expired : CardUserStatus

pub record CardDetail : Type 0 where
  pub id : ℕ
  pub card_type : CardType
  pub status : CardUserStatus
  pub masked_number : Option String
  pub card_identifier : String
  pub created_at : ℕ

pub record Summary : Type 0 where
  pub physical : Counts
  pub virtual : Counts

pub record CardStatusResponse : Type 0 where
  pub has_cards : Bool
  pub has_active_cards : Bool
  pub has_requested_cards : Bool
  pub summary : Summary
  pub cards : List CardDetail

-- `target.total++` and the counter of the row's status.
unfoldable pub count_status : CardStatus → Counts → Counts
count_status CardStatus.active n = record n { total = n.total + 1; active = n.active + 1 }
count_status CardStatus.inactive n = record n { total = n.total + 1; inactive = n.inactive + 1 }
count_status CardStatus.pending n = record n { total = n.total + 1; inactive = n.inactive + 1 }
count_status CardStatus.blocked n = record n { total = n.total + 1; blocked = n.blocked + 1 }
count_status CardStatus.expired n = record n { total = n.total + 1; expired = n.expired + 1 }

-- `target` is one of the two counters.
unfoldable pub count_card : CardType → CardStatus → Summary → Summary
unfolding count_status
count_card CardType.physical status s = record s { physical = count_status status s.physical }
count_card CardType.virtual status s = record s { virtual = count_status status s.virtual }

abbrev pub five_days : ℕ
five_days = 5 * 24 * 60 * 60 * 1000

unfoldable pub user_status : (now : ℕ) → Card → CardStatus → CardUserStatus
user_status now c CardStatus.active = active
user_status now c CardStatus.inactive = if is_some c.prospera_card_id then inactive else pending
user_status now c CardStatus.pending =
    if ltb five_days (now - c.created_at) then inactive else pending
user_status now c CardStatus.blocked = blocked
user_status now c CardStatus.expired = expired

unfoldable pub card_detail : (now : ℕ) → Card → CardDetail
unfolding user_status
card_detail now c = record {
  id = c.id;
  card_type = c.card_type;
  status = user_status now c c.status;
  masked_number = truthy c.masked_number;
  card_identifier = c.card_identifier;
  created_at = c.created_at;
}

-- The counters after the cards of the list, one after the other.
unfoldable pub count_cards : List Card → Summary → Summary
unfolding count_card
count_cards [] s = s
count_cards (c ∷ cs) s = count_cards cs (count_card c.card_type c.status s)

abbrev is_empty : List Card → Bool
is_empty [] = true
is_empty (c ∷ cs) = false

abbrev pub no_cards : Summary
no_cards = record { physical = zero_counts; virtual = zero_counts }

unfoldable pub card_status : (now : ℕ) → List Card → CardStatusResponse
card_status now cards =
    let s = count_cards cards no_cards in
    record {
      has_cards = if is_empty cards then false else true;
      has_active_cards = ltb 0 s.physical.active || ltb 0 s.virtual.active;
      has_requested_cards = ltb 0 s.physical.inactive || ltb 0 s.virtual.inactive;
      summary = s;
      cards = map (card_detail now) cards;
    }

-- `orderBy: { createdAt: 'desc' }`
unfoldable pub insert_newest : Card → List Card → List Card
insert_newest c [] = c ∷ []
insert_newest c (d ∷ ds) =
    let rest = insert_newest c ds in if ltb c.created_at d.created_at then d ∷ rest else c ∷ d ∷ ds

unfoldable pub newest_first : List Card → List Card
unfolding insert_newest
newest_first [] = []
newest_first (c ∷ cs) = insert_newest c (newest_first cs)

unfoldable pub get_card_status_by_user : (now user : ℕ) → Action CardStore CardStatusResponse
get_card_status_by_user now user =
    gets (λ s. card_status now (newest_first (select (λ c. is_user user c.user_id) s.cards)))
