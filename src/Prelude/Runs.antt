-- ===== src/Prelude/Runs.antt =====
-- What a run that returned went through, step by step.
use mathlib.Core.Path.{◌≡◌, refl, ap, ◌∙◌}
use mathlib.Core.Logic.{inl, inr}
use mathlib.Core.Bool.{Bool, true, false}
use mathlib.Core.Option.{Option, none, some}
use banking_mobile_backend.Prelude.Effects.{
  Error, Result, ok, err, Action, pure, gets, or_throw, throw_if, continue, ◌>>=◌, Result-cases,
  all_of,
}

module _ {ℓ} {S A B : Type ℓ} {s s' : S} {b : B} where
  pub gets-run :
      (g : S → A) (f : A → Action S B) → (gets g >>= f) s ≡ (ok b, s') → f (g s) s ≡ (ok b, s')
  unfolding ◌>>=◌
  gets-run g f h = h

  pub or_throw-run :
      (o : Option A) (e : Error) (f : A → Action S B)
      → (or_throw o e >>= f) s ≡ (ok b, s')
      → (a : A) × (o ≡ some a) × (f a s ≡ (ok b, s'))
  unfolding ◌>>=◌
  or_throw-run none e f h = cc
  or_throw-run (some a) e f h = (a, refl, h)

  -- The same, where the value is known.
  pub or_throw-run_some :
      (o : Option A) (a : A) (e : Error) (f : A → Action S B)
      → o ≡ some a
      → (or_throw o e >>= f) s ≡ (ok b, s')
      → f a s ≡ (ok b, s')
  unfolding ◌>>=◌
  or_throw-run_some none a e f known h = cc
  or_throw-run_some (some x) a e f known h = cc (known, h)

  continue-run :
      (m : Action S A) (t : Result A × S) (f : A → Action S B)
      → m s ≡ t
      → continue t.0 f t.1 ≡ (ok b, s')
      → (a : A) × (middle : S) × (m s ≡ (ok a, middle)) × (f a middle ≡ (ok b, s'))
  continue-run m (ok a, u) f e h = (a, u, e, h)
  continue-run m (err x, u) f e h = cc

  -- Any step: it returned, and the rest went on from the state that it left.
  pub bind-run :
      (m : Action S A) (f : A → Action S B)
      → (m >>= f) s ≡ (ok b, s')
      → (a : A) × (middle : S) × (m s ≡ (ok a, middle)) × (f a middle ≡ (ok b, s'))
  unfolding ◌>>=◌
  bind-run m f h = continue-run m (m s) f refl h

pub throw_if-run {ℓ} :
    {S B : Type ℓ} {s s' : S} {b : B} (c : Bool) (e : Error) (f : Unit {ℓ} → Action S B)
    → (throw_if c e >>= f) s ≡ (ok b, s')
    → (c ≡ false) × (f tt s ≡ (ok b, s'))
unfolding ◌>>=◌
throw_if-run true e f h = cc
throw_if-run false e f h = (refl, h)

pub pure-run {ℓ} :
    {S A : Type ℓ} {s s' : S} {a : A} (x : A) → pure x s ≡ (ok a, s') → (x ≡ a) × (s ≡ s')
unfolding pure
pure-run x h = (cc, cc)

paired : {A B : Type 0} {x : A × B} {a : A} {b : B} → x.0 ≡ a → x.1 ≡ b → x ≡ (a, b)
paired p q = λ i. (p i, q i)

-- Both actions of `Promise.all` returned, when the pair did.
pub all_of-run :
    {S A B : Type 0} (m : Action S A) (n : Action S B) (s : S) {both : A × B} {s' : S}
    → all_of m n s ≡ (ok both, s')
    → (middle : S) × (m s ≡ (ok both.0, middle)) × (n middle ≡ (ok both.1, s'))
unfolding all_of
all_of-run m n s {both} run = elim (Result-cases (m s).0) [
  | inl (e, failed) ↦ absurd (cc (rw failed at run))
  | inr (a, first) ↦ elim (Result-cases (n (m s).1).0) [
    | inl (e, failed) ↦ absurd (cc (rw (first, failed) at run))
    | inr (b, second) ↦
        let done = rw (first, second) at run in
        let pair : (a, b) ≡ both = cc done in
        (
          (m s).1,
          paired (first ∙ ap (λ p. ok p.0) pair) refl,
          paired (second ∙ ap (λ p. ok p.1) pair) (ap (λ t. t.1) done),
        )
  ]
]
