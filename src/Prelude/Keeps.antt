-- ===== src/Prelude/Keeps.antt =====
-- Invariants of actions, with one rule for each way in which the services build an action.
use mathlib.Core.Bool.{Bool, true, false}
use mathlib.Core.Option.{Option, none, some}
use banking_mobile_backend.Prelude.Tests.{if◌then◌else◌}
use banking_mobile_backend.Prelude.Effects.{
  Error, Result, ok, err, Action, pure, throw, gets, or_throw, lift, modify, throw_if, ◌>>=◌,
  handle_error, try_catch, end_with, try_finally,
}

-- Whatever `m` returns or throws, it leaves a state that has `I` when it began in one.
pub record Keeps {ℓ} {S A : Type ℓ} (I : S → Type ℓ) (action : Action S A) : Type ℓ where
  pub at : (before : S) → I before → I (action before).1

module _ {ℓ} {S A : Type ℓ} {I : S → Type ℓ} where
  pub Keeps-gets : (f : S → A) → Keeps I (gets f)
  unfolding gets
  Keeps-gets f = record { at = λ before kept. kept }

  pub Keeps-throw : (e : Error) → Keeps I (throw {A = A} e)
  unfolding throw
  Keeps-throw e = record { at = λ before kept. kept }

  pub Keeps-pure : (a : A) → Keeps I (pure a)
  unfolding pure
  Keeps-pure a = record { at = λ before kept. kept }

  pub Keeps-lift : (r : Result A) → Keeps I (lift r)
  unfolding lift
  Keeps-lift r = record { at = λ before kept. kept }

  pub Keeps-or_throw : (o : Option A) (e : Error) → Keeps I (or_throw o e)
  unfolding or_throw
  Keeps-or_throw none e = record { at = λ before kept. kept }
  Keeps-or_throw (some a) e = record { at = λ before kept. kept }

  pub Keeps-if :
      (b : Bool) (m n : Action S A) → Keeps I m → Keeps I n → Keeps I (if b then m else n)
  Keeps-if true m n km kn = km
  Keeps-if false m n km kn = kn

  Keeps-handle_error :
      (r : Result A) (h : Error → Action S A)
      → ((e : Error) → Keeps I (h e))
      → Keeps I (handle_error r h)
  Keeps-handle_error (ok a) h kh = record { at = λ s p. p }
  Keeps-handle_error (err e) h kh = kh e

  pub Keeps-try_catch :
      (m : Action S A) (h : Error → Action S A)
      → Keeps I m
      → ((e : Error) → Keeps I (h e))
      → Keeps I (try_catch m h)
  unfolding try_catch
  Keeps-try_catch m h km kh = record {
    at = λ s p. let (r, s') = m s in (Keeps-handle_error r h kh).at s' (km.at s p);
  }

end_with-kept {ℓ} :
    {S A : Type ℓ} (I : S → Type ℓ) (r : Result A) (t : Result (Unit {ℓ}) × S)
    → I t.1
    → I (end_with r t).1
end_with-kept I r (ok u, s) h = h
end_with-kept I r (err e, s) h = h

module _ {ℓ} {S A : Type ℓ} {I : S → Type ℓ} where
  pub Keeps-try_finally :
      (m : Action S A) (k : Action S (Unit {ℓ})) → Keeps I m → Keeps I k → Keeps I (try_finally m k)
  unfolding try_finally
  Keeps-try_finally m k km kk = record {
    at = λ s h. let (r, s') = m s in end_with-kept I r (k s') (kk.at s' (km.at s h));
  }

module _ {ℓ} {S : Type ℓ} {I : S → Type ℓ} where
  pub Keeps-throw_if : (c : Bool) (e : Error) → Keeps I (throw_if c e)
  unfolding throw_if
  Keeps-throw_if c e = record { at = λ before kept. kept }

  pub Keeps-modify : (f : S → S) → ((s : S) → I s → I (f s)) → Keeps I (modify f)
  unfolding modify
  Keeps-modify f h = record { at = h }

module _ {ℓ} {S A B : Type ℓ} {I : S → Type ℓ} where
  Keeps-continue :
      (r : Result A) (f : A → Action S B) → ((a : A) → Keeps I (f a)) → Keeps I (lift r >>= f)
  unfolding ◌>>=◌
  Keeps-continue (ok a) f kf = kf a
  Keeps-continue (err e) f kf = record { at = λ before kept. kept }

  pub Keeps-bind :
      (m : Action S A) (f : A → Action S B)
      → Keeps I m
      → ((a : A) → Keeps I (f a))
      → Keeps I (m >>= f)
  unfolding ◌>>=◌
  Keeps-bind m f km kf = record {
    at = λ s h. let (r, s') = m s in (Keeps-continue r f kf).at s' (km.at s h);
  }

pub ruleset keeps_rules = (
  Keeps-pure, Keeps-throw, Keeps-gets, Keeps-lift, Keeps-or_throw, Keeps-if, Keeps-throw_if,
  Keeps-bind, Keeps-try_catch, Keeps-try_finally,
)
