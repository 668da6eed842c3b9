-- ===== src/Prelude/Unique.antt =====
-- Tables whose rows have a number and columns that are unique: what Prisma's client refuses, and that
-- the rows stay apart.
use Prim.Native.Nat.{ℕ}
use mathlib.Core.Path.{◌≡◌, refl, subst, ◌∙◌}
use mathlib.Core.Bool.{Bool, true, false, not, ◌&&◌}
use mathlib.Core.Logic.{inl, inr}
use mathlib.Core.Option.{none, some}
use mathlib.Core.List.{List, [], ◌∷◌, ◌++◌}
use native.Mathlib.Omega.{arith}
use banking_mobile_backend.Prelude.Tests.{
  ◌==◌, if◌then◌else◌, All, Bool-cases, Option-cases, ==_refl,
}
use banking_mobile_backend.Prelude.Effects.{database, Result, ok, err}
use banking_mobile_backend.Prelude.Table.{find, update_where, any}

-- `id` numbers the rows, and two rows `clash` when a unique column is the same.
module _ {A : Type 0} (id : A → ℕ) (clash : A → A → Bool) where
  abbrev pub numbered : ℕ → A → Bool
  numbered k x = id x == k

  -- Another row has a unique column of `new`.
  abbrev pub taken : ℕ → A → A → Bool
  taken k new x = not (id x == k) && clash new x

  -- `update` by the id
  unfoldable pub update_row : ℕ → (A → A) → List A → Result (List A)
  unfolding find update_where any
  update_row k f rows = elim (find (numbered k) rows) [
    | none ↦ err (database "Record to update not found.")
    | some x ↦
        if any (taken k (f x)) rows
        then err (database "Unique constraint failed")
        else ok (update_where (numbered k) f rows)
  ]

  -- `create`
  unfoldable pub insert_row : A → List A → Result (List A)
  unfolding any
  insert_row x rows =
      if any (clash x) rows
      then err (database "Unique constraint failed")
      else ok (rows ++ (x ∷ []))

  pub record Apart (x y : A) : Type 0 where
    pub ids : (id x == id y) ≡ false
    pub free : clash x y ≡ false

  abbrev pub Distinct : List A → Type 0
  Distinct [] = Unit
  Distinct (x ∷ xs) = All (Apart x) xs × Distinct xs

  Apart-append :
      (x y : A) (ys : List A) → All (Apart y) ys → Apart y x → All (Apart y) (ys ++ (x ∷ []))
  Apart-append x y [] a h = (h, tt)
  Apart-append x y (z ∷ zs) (az, as') h = (az, Apart-append x y zs as' h)

  module _ (symmetric : (x y : A) → clash x y ≡ clash y x) where
    pub Distinct-append :
        (x : A) (xs : List A)
        → All (λ y. (id x == id y) ≡ false) xs
        → any (clash x) xs ≡ false
        → Distinct xs
        → Distinct (xs ++ (x ∷ []))
    unfolding any
    Distinct-append x [] new free d = (tt, tt)
    Distinct-append x (y ∷ ys) (new, news) free (a, d) = (
      Apart-append x y ys a
          (record { ids = ground (arith, new); free = symmetric y x ∙ ground arith }),
      Distinct-append x ys news (ground arith) d,
    )

  module _ (symmetric : (x y : A) → clash x y ≡ clash y x) (k : ℕ) (f : A → A)
      (keeps : (x : A) → id (f x) ≡ id x) where
    absent :
        (x : A) (xs : List A)
        → numbered k x ≡ true
        → All (Apart x) xs
        → update_where (numbered k) f xs ≡ xs
    unfolding update_where
    absent x [] h a = refl
    absent x (y ∷ ys) h (a, as') = ground (arith, a.ids, absent x ys h as')

    changed :
        (x : A) (xs : List A)
        → numbered k x ≡ true
        → All (Apart x) xs
        → any (taken k (f x)) xs ≡ false
        → All (Apart (f x)) xs
    unfolding any
    changed x [] h a free = tt
    changed x (y ∷ ys) h (a, as') free = (
      record { ids = ground (arith, a.ids, keeps x); free = ground (arith, a.ids, keeps x) },
      changed x ys h as' (ground arith),
    )

    beside :
        (new x : A) (xs : List A)
        → find (numbered k) xs ≡ some new
        → Distinct xs
        → clash (f new) x ≡ false
        → All (Apart x) xs
        → All (Apart x) (update_where (numbered k) f xs)
    unfolding find update_where
    beside new x [] e d free a = tt
    beside new x (y ∷ ys) e (dy, ds) free (a, as') = elim (Bool-cases (numbered k y)) [
      | inl same ↦
          let found : y ≡ new = ground arith in
          rw (same, absent y ys same dy)
            (record { ids = rw (keeps y) a.ids; free = symmetric x (f y) ∙ rw found free }, as')
      | inr other ↦ rw other (a, beside new x ys (ground arith) ds free as')
    ]

    pub Distinct-update :
        (x : A) (xs : List A)
        → find (numbered k) xs ≡ some x
        → any (taken k (f x)) xs ≡ false
        → Distinct xs
        → Distinct (update_where (numbered k) f xs)
    unfolding find update_where any
    Distinct-update x [] e free d = tt
    Distinct-update x (y ∷ ys) e free (dy, ds) = elim (Bool-cases (numbered k y)) [
      | inl same ↦
          let found : y ≡ x = ground arith in
          rw (same, absent y ys same dy) (changed y ys same dy (rw found (ground arith)), ds)
      | inr other ↦
          let clear : clash (f x) y ≡ false = ground arith in
          rw other (
            beside x y ys (ground arith) ds clear dy,
            Distinct-update x ys (ground arith) (ground arith) ds,
          )
    ]

    -- What an update that the client accepts has done.
    pub update_row-run :
        (xs ys : List A)
        → update_row k f xs ≡ ok ys
        → (x : A) × (find (numbered k) xs ≡ some x)
          × (any (taken k (f x)) xs ≡ false)
          × (ys ≡ update_where (numbered k) f xs)
    unfolding update_row
    update_row-run xs ys run = elim (Option-cases (find (numbered k) xs)) [
      | inl missing ↦ cc (rw (missing, update_row) at run)
      | inr (x, found) ↦ elim (Bool-cases (any (taken k (f x)) xs)) [
        | inl clashing ↦ ground (arith, found, clashing, run)
        | inr free ↦ (x, found, free, ground (arith, found, free, run))
      ]
    ]

  All-find :
      (P : A → Type 0) (p : A → Bool) (x : A) (xs : List A) → find p xs ≡ some x → All P xs → P x
  unfolding find
  All-find P p x [] found h = cc found
  All-find P p x (y ∷ ys) found (h, hs) = elim (Bool-cases (p y)) [
    | inl here ↦ subst P (ground (arith, here, found)) h
    | inr later ↦ All-find P p x ys (ground (arith, later, found)) hs
  ]

  -- A row that was found is the one with its number.
  pub find-numbered :
      (p : A → Bool) (x : A) (xs : List A)
      → Distinct xs
      → find p xs ≡ some x
      → find (numbered (id x)) xs ≡ some x
  unfolding find
  find-numbered p x [] d found = cc found
  find-numbered p x (y ∷ ys) (dy, ds) found = elim (Bool-cases (p y)) [
    | inl here ↦
        let same : y ≡ x = ground (arith, here, found) in rw same (rw (==_refl (id x)) refl)
    | inr later ↦
        let found' : find p ys ≡ some x = ground (arith, later, found) in
        rw ((All-find (Apart y) p x ys found' dy).ids) (find-numbered p x ys ds found')
  ]
