-- ===== src/Prelude/Table.antt =====
-- The tables that Prisma's client keeps: rows in insertion order.
use Prim.Native.Nat.{ℕ}
use mathlib.Core.Path.{◌≡◌}
use mathlib.Core.Bool.{Bool, true, false, ◌||◌}
use mathlib.Core.Option
use mathlib.Core.Option.{Option, none, some}
use mathlib.Core.List.{List, [], ◌∷◌}
use native.Mathlib.Omega.{arith}
use banking_mobile_backend.Prelude.Tests.{◌==◌, if◌then◌else◌}

module _ {ℓ} {A : Type ℓ} where
  -- `findFirst`, and `findUnique` on a unique column
  unfoldable pub find : (A → Bool) → List A → Option A
  find p [] = none
  find p (x ∷ xs) = if p x then some x else find p xs

  -- `updateMany`, and `update` on a unique column
  unfoldable pub update_where : (A → Bool) → (A → A) → List A → List A
  update_where p f [] = []
  update_where p f (x ∷ xs) = (if p x then f x else x) ∷ update_where p f xs

  -- `findMany`
  unfoldable pub select : (A → Bool) → List A → List A
  select p [] = []
  select p (x ∷ xs) = let rest = select p xs in if p x then x ∷ rest else rest

  unfoldable pub any : (A → Bool) → List A → Bool
  any p [] = false
  any p (x ∷ xs) = p x || any p xs

  pub find_sound : (p : A → Bool) (xs : List A) (x : A) → find p xs ≡ some x → p x ≡ true
  unfolding find
  find_sound p [] x h = cc
  find_sound p (y ∷ xs) x h = ground (arith, find_sound p xs x)

module _ {ℓ} {A : Type ℓ} (key : A → ℕ) where
  -- A change that leaves the key alone is seen exactly under its key.
  pub find-update_where :
      (f : A → A)
      → ((x : A) → key (f x) ≡ key x)
      → (j k : ℕ) (xs : List A)
      → find (λ x. key x == j) (update_where (λ x. key x == k) f xs)
        ≡ (if k == j then Option.map f (find (λ x. key x == j) xs) else find (λ x. key x == j) xs)
  unfolding find update_where
  find-update_where f h j k [] = ground arith
  find-update_where f h j k (x ∷ xs) = ground (arith, h x, find-update_where f h j k xs)

module _ {ℓ} {A : Type ℓ} (p q : A → Bool) (f : A → A) where
  -- A change that leaves a test alone changes what the test finds.
  pub find-mapped :
      ((x : A) → p (f x) ≡ p x)
      → (xs : List A)
      → find p (update_where q f xs) ≡ Option.map (λ x. if q x then f x else x) (find p xs)
  unfolding find update_where
  find-mapped h [] = ground arith
  find-mapped h (x ∷ xs) = ground (arith, h x, find-mapped h xs)
