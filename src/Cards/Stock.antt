-- ===== src/Cards/Stock.antt =====
-- The rows of an inventory are not those of a card with an owner.
use banking_mobile_backend.Prelude.{
  ℕ, ◌≡◌, subst, Bool, false, not, ◌&&◌, some, List, [], ◌∷◌, ◌++◌, ◌==◌, is_some, All, Bool-cases,
  inl, inr, find, select, arith,
}
use banking_mobile_backend.Prelude.Unique.{Distinct, Apart}
use banking_mobile_backend.Cards.{Card, has_card_id, is_physical, in_inventory}
use banking_mobile_backend.Cards.Orders.{card_clash, item_at}

abbrev pub is_available : Card → Bool
is_available c = not (is_some c.user_id) && is_physical c.card_type && in_inventory c.status

module _ (other : Card) where
  abbrev pub Differs : Card → Type 0
  Differs c = (c.id == other.id) ≡ false

  All-select :
      (p : Card → Bool) (cards : List Card) → All Differs cards → All Differs (select p cards)
  unfolding select
  All-select p [] h = tt
  All-select p (c ∷ cs) (h, hs) = elim (Bool-cases (p c)) [
    | inl kept ↦ rw kept (h, All-select p cs hs)
    | inr dropped ↦ rw dropped (All-select p cs hs)
  ]

  All-Apart :
      (cards : List Card)
      → All (Apart (λ (c : Card). c.id) card_clash other) cards
      → All Differs cards
  All-Apart [] h = tt
  All-Apart (c ∷ cs) (h, hs) = (ground (arith, h.ids), All-Apart cs hs)

  -- No card of the inventory has the number of a card with an owner.
  pub select-Differs :
      (cards : List Card)
      → Distinct (λ (c : Card). c.id) card_clash cards
      → find (has_card_id other.id) cards ≡ some other
      → is_available other ≡ false
      → All Differs (select is_available cards)
  unfolding select find
  select-Differs [] d found h = tt
  select-Differs (c ∷ cs) (dc, ds) found h = elim (Bool-cases (c.id == other.id)) [
    | inl here ↦
        let same : c ≡ other = ground (arith, here, found) in
        let rest = subst (λ x. All (Apart (λ (c : Card). c.id) card_clash x) cs) same dc in
        rw (same, h) (All-select is_available cs (All-Apart cs rest))
    | inr later ↦
        let rest = select-Differs cs ds (rw later at found) h in
        elim (Bool-cases (is_available c)) [
          | inl kept ↦ rw kept (later, rest)
          | inr dropped ↦ rw dropped rest
        ]
  ]

  pub find-append :
      (new : Card) (cards : List Card)
      → find (has_card_id other.id) cards ≡ some other
      → find (has_card_id other.id) (cards ++ (new ∷ [])) ≡ some other
  unfolding find
  find-append new [] h = cc h
  find-append new (c ∷ cs) h = elim (Bool-cases (c.id == other.id)) [
    | inl here ↦ rw here (rw here at h)
    | inr later ↦ rw later (find-append new cs (rw later at h))
  ]

  pub item-Differs :
      (n : ℕ) (c : Card) (cards : List Card)
      → All Differs cards
      → item_at n cards ≡ some c
      → Differs c
  item-Differs n c [] h found = cc found
  item-Differs ℕ.zero c (d ∷ ds) (h, hs) found = let same : d ≡ c = cc found in rw same at h
  item-Differs (ℕ.suc n) c (d ∷ ds) (h, hs) found = item-Differs n c ds hs found
