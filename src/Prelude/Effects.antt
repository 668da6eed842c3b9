-- ===== src/Prelude/Effects.antt =====
-- An `async` function of the services: it reads and writes the state of its component, and it
-- returns a value or throws. What was written before a throw stays written.
use Prim.Native.String.{String}
use mathlib.Core.Path.{◌≡◌, refl}
use mathlib.Core.Logic.{◌⊎◌, inl, inr}
use mathlib.Core.Bool.{Bool}
use mathlib.Core.Option.{Option, none, some}
use banking_mobile_backend.Prelude.Tests.{if◌then◌else◌}

-- The classes of shared/errors/customErrors.ts, each with its message; `new Error(m)` is `plain`,
-- a `TypeError` of the language is `type_error`, and `database` is an error of Prisma's client.
pub data Error : Type 0 where
  bad_request unauthorized forbidden not_found conflict : String → Error
  unprocessable internal_server plain type_error database : String → Error

pub data Result {ℓ} (A : Type ℓ) : Type ℓ where
  ok : A → Result A
  err : Error → Result A

pub Result-cases {ℓ} :
    {A : Type ℓ} (r : Result A) → ((e : Error) × (r ≡ err e)) ⊎ ((a : A) × (r ≡ ok a))
Result-cases (ok a) = inr (a, refl)
Result-cases (err e) = inl (e, refl)

abbrev pub Action {ℓ} : Type ℓ → Type ℓ → Type ℓ
Action S A = S → Result A × S

module _ {ℓ} {S A : Type ℓ} where
  unfoldable pub pure : A → Action S A
  pure a s = (ok a, s)

  unfoldable pub throw : Error → Action S A
  throw e s = (err e, s)

  unfoldable pub gets : (S → A) → Action S A
  gets f s = (ok (f s), s)

  -- `if (!o) throw e`, and the value of `o` otherwise.
  unfoldable pub or_throw : Option A → Error → Action S A
  or_throw none e s = (err e, s)
  or_throw (some a) e s = (ok a, s)

  unfoldable pub lift : Result A → Action S A
  lift r s = (r, s)

module _ {ℓ} {S : Type ℓ} where
  unfoldable pub modify : (S → S) → Action S (Unit {ℓ})
  modify f s = (ok tt, f s)

  -- `if (c) throw e`
  unfoldable pub throw_if : Bool → Error → Action S (Unit {ℓ})
  throw_if c e s = (if c then err e else ok tt, s)

module _ {ℓ} {S A B : Type ℓ} where
  abbrev pub continue : Result A → (A → Action S B) → Action S B
  continue (ok a) f s = f a s
  continue (err e) f s = (err e, s)

  infixl 5 ◌>>=◌ ◌>>◌
  -- Opening this opens the actions above too.
  unfoldable pub ◌>>=◌ : Action S A → (A → Action S B) → Action S B
  unfolding pure throw gets or_throw lift modify throw_if
  ◌>>=◌ m f s = let (r, s') = m s in continue r f s'

  abbrev pub ◌>>◌ : Action S A → Action S B → Action S B
  m >> n = m >>= λ _. n

module _ {ℓ} {S A : Type ℓ} where
  abbrev pub handle_error : Result A → (Error → Action S A) → Action S A
  handle_error (ok a) h s = (ok a, s)
  handle_error (err e) h s = h e s

  -- `try { m } catch (error) { h error }`
  unfoldable pub try_catch : Action S A → (Error → Action S A) → Action S A
  try_catch m h s = let (r, s') = m s in handle_error r h s'

  abbrev pub end_with : Result A → Result (Unit {ℓ}) × S → Result A × S
  end_with r (ok _, s) = (r, s)
  end_with r (err e, s) = (err e, s)

  -- `try { m } finally { k }`: an error of `k` replaces the outcome of `m`.
  unfoldable pub try_finally : Action S A → Action S (Unit {ℓ}) → Action S A
  try_finally m k s = let (r, s') = m s in end_with r (k s')

abbrev pub join_results : {A B : Type 0} → Result A → Result B → Result (A × B)
join_results (ok a) (ok b) = ok (a, b)
join_results (ok a) (err e) = err e
join_results (err e) r = err e

-- `Promise.all([m, n])`: both run, here one after the other; the first error is thrown.
unfoldable pub all_of : {S A B : Type 0} → Action S A → Action S B → Action S (A × B)
all_of m n s = let (r, s1) = m s in let (q, s2) = n s1 in (join_results r q, s2)
