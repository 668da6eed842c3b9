-- ===== src/Cards/Counts.antt =====
-- The counters of a user's cards.
use banking_mobile_backend.Prelude.{
  ℕ, ◌≡◌, refl, ◌∙◌, Bool, true, false, ◌&&◌, not, ◌||◌, ◌+◌, List, [], ◌∷◌, arith, ok, gets,
  select, if◌then◌else◌, ltb,
}
use banking_mobile_backend.Cards.{Card, CardType, CardStatus, CardStore, is_physical, is_user}
use banking_mobile_backend.Cards.Status.{
  Counts, Summary, CardStatusResponse, no_cards, count_status, count_card, count_cards, card_status,
  insert_newest, newest_first, get_card_status_by_user,
}

-- How many rows pass a test.
unfoldable pub count : (Card → Bool) → List Card → ℕ
count p [] = 0
count p (c ∷ cs) = let rest = count p cs in if p c then rest + 1 else rest

abbrev is_active_card : CardStatus → Bool
is_active_card CardStatus.active = true
is_active_card _ = false

abbrev pub physical_card : Card → Bool
physical_card c = is_physical c.card_type

abbrev pub virtual_card : Card → Bool
virtual_card c = not (is_physical c.card_type)

abbrev pub is_active_one : (Card → Bool) → Card → Bool
is_active_one p c = p c && is_active_card c.status

abbrev AddsUp : Counts → Type 0
AddsUp n = n.active + n.inactive + n.blocked + n.expired ≡ n.total

count_status-AddsUp : (status : CardStatus) (n : Counts) → AddsUp n → AddsUp (count_status status n)
unfolding count_status
count_status-AddsUp CardStatus.active n h = omega arith
count_status-AddsUp CardStatus.inactive n h = omega arith
count_status-AddsUp CardStatus.pending n h = omega arith
count_status-AddsUp CardStatus.blocked n h = omega arith
count_status-AddsUp CardStatus.expired n h = omega arith

abbrev BothAddUp : Summary → Type 0
BothAddUp s = AddsUp s.physical × AddsUp s.virtual

count_card-BothAddUp :
    (type' : CardType) (status : CardStatus) (s : Summary)
    → BothAddUp s
    → BothAddUp (count_card type' status s)
unfolding count_card
count_card-BothAddUp CardType.physical status s h = (count_status-AddsUp status s.physical h.0, h.1)
count_card-BothAddUp CardType.virtual status s h = (h.0, count_status-AddsUp status s.virtual h.1)

count_cards-BothAddUp :
    (cards : List Card) (s : Summary) → BothAddUp s → BothAddUp (count_cards cards s)
unfolding count_cards
count_cards-BothAddUp [] s h = h
count_cards-BothAddUp (c ∷ cs) s h =
    count_cards-BothAddUp cs (count_card c.card_type c.status s)
      (count_card-BothAddUp c.card_type c.status s h)

-- Each counter counts the rows of its kind.
abbrev Counted : List Card → Summary → Summary → Type 0
Counted cards s t =
    (t.physical.total ≡ s.physical.total + count physical_card cards)
    × (t.virtual.total ≡ s.virtual.total + count virtual_card cards)
    × (t.physical.active ≡ s.physical.active + count (is_active_one physical_card) cards)
    × (t.virtual.active ≡ s.virtual.active + count (is_active_one virtual_card) cards)

count_cards-Counted : (cards : List Card) (s : Summary) → Counted cards s (count_cards cards s)
unfolding count_cards count count_card count_status
count_cards-Counted [] s = (omega arith, omega arith, omega arith, omega arith)
count_cards-Counted (c ∷ cs) s =
    let h = count_cards-Counted cs (count_card c.card_type c.status s) in
    (ground (arith, h.0), ground (arith, h.1), ground (arith, h.2), ground (arith, h.3))

count-insert_newest :
    (p : Card → Bool) (c : Card) (cs : List Card)
    → count p (insert_newest c cs) ≡ (if p c then count p cs + 1 else count p cs)
unfolding count insert_newest
count-insert_newest p c [] = ground arith
count-insert_newest p c (d ∷ ds) = ground (arith, count-insert_newest p c ds)

count-newest_first : (p : Card → Bool) (cs : List Card) → count p (newest_first cs) ≡ count p cs
unfolding count newest_first
count-newest_first p [] = refl
count-newest_first p (c ∷ cs) =
    ground (arith, count-insert_newest p c (newest_first cs), count-newest_first p cs)

abbrev pub of_user : ℕ → (Card → Bool) → Card → Bool
of_user user p c = is_user user c.user_id && p c

count-select :
    (user : ℕ) (p : Card → Bool) (cs : List Card)
    → count p (select (λ c. is_user user c.user_id) cs) ≡ count (of_user user p) cs
unfolding count select
count-select user p [] = refl
count-select user p (c ∷ cs) = ground (arith, count-select user p cs)

-- What the answer says of the rows of the table.
pub record IsTally (user : ℕ) (cards : List Card) (r : CardStatusResponse) : Type 0 where
  pub physical_parts :
      r.summary.physical.active + r.summary.physical.inactive + r.summary.physical.blocked
        + r.summary.physical.expired
      ≡ r.summary.physical.total
  pub virtual_parts :
      r.summary.virtual.active + r.summary.virtual.inactive + r.summary.virtual.blocked
        + r.summary.virtual.expired
      ≡ r.summary.virtual.total
  pub physical_total : r.summary.physical.total ≡ count (of_user user physical_card) cards
  pub virtual_total : r.summary.virtual.total ≡ count (of_user user virtual_card) cards
  pub physical_active :
      r.summary.physical.active ≡ count (of_user user (is_active_one physical_card)) cards
  pub virtual_active :
      r.summary.virtual.active ≡ count (of_user user (is_active_one virtual_card)) cards
  pub shows_active : r.has_active_cards ≡ (
      ltb 0 (count (of_user user (is_active_one physical_card)) cards)
      || ltb 0 (count (of_user user (is_active_one virtual_card)) cards))

from_zero : (a b c : ℕ) → a ≡ 0 + b → b ≡ c → a ≡ c
from_zero a b c h k = omega arith

module _ (user : ℕ) (cards : List Card) where
  abbrev rows : List Card
  rows = newest_first (select (λ c. is_user user c.user_id) cards)

  count-rows : (p : Card → Bool) → count p rows ≡ count (of_user user p) cards
  count-rows p =
      count-newest_first p (select (λ c. is_user user c.user_id) cards) ∙ count-select user p cards

  card_status-IsTally : (now : ℕ) → IsTally user cards (card_status now rows)
  unfolding card_status
  card_status-IsTally now =
      let parts = count_cards-BothAddUp rows no_cards (refl, refl) in
      let (physical_all, virtual_all, physical_on, virtual_on) =
        count_cards-Counted rows no_cards in
      record {
        physical_parts = parts.0;
        virtual_parts = parts.1;
        physical_total = from_zero _ _ _ physical_all (count-rows physical_card);
        virtual_total = from_zero _ _ _ virtual_all (count-rows virtual_card);
        physical_active = from_zero _ _ _ physical_on (count-rows (is_active_one physical_card));
        virtual_active = from_zero _ _ _ virtual_on (count-rows (is_active_one virtual_card));
        shows_active =
            rw
              (
                from_zero _ _ _ physical_on (count-rows (is_active_one physical_card)),
                from_zero _ _ _ virtual_on (count-rows (is_active_one virtual_card)),
              )
              refl;
      }

-- The status of a user's cards counts exactly the user's rows: each kind's total is their number, the
-- counters of the states add up to the total, those of the active cards are the number of active
-- rows, and the user has active cards exactly if there is such a row. The state is not changed.
pub get_card_status_by_user-IsTally :
    (now user : ℕ) (s : CardStore)
    → (r : CardStatusResponse) × (get_card_status_by_user now user s ≡ (ok r, s))
      × IsTally user s.cards r
unfolding get_card_status_by_user gets
get_card_status_by_user-IsTally now user s =
    (card_status now (rows user s.cards), refl, card_status-IsTally user s.cards now)
