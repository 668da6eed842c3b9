-- ===== src/Prelude/Triple.antt =====
-- What an action has done by how it ended: a postcondition for a result and one for an error.
use mathlib.Core.Path.{◌≡◌, refl, subst}
use banking_mobile_backend.Prelude.Effects.{
  Error, Result, ok, err, Action, pure, throw, lift, continue, ◌>>=◌, handle_error, try_catch,
}
use banking_mobile_backend.Prelude.Keeps.{Keeps}

abbrev pub Outcome {ℓ} : {S A : Type ℓ} → (A → S → Type ℓ) → (S → Type ℓ) → Result A × S → Type ℓ
Outcome Q E (ok a, s) = Q a s
Outcome Q E (err e, s) = E s

pub record Triple {ℓ} {S A : Type ℓ} (P : S → Type ℓ) (m : Action S A) (Q : A → S → Type ℓ)
    (E : S → Type ℓ) : Type ℓ where
  pub at : (s : S) → P s → Outcome Q E (m s)

Outcome-both {ℓ} : {S A : Type ℓ} (P : S → Type ℓ) (t : Result A × S) → P t.1 → Outcome (λ _. P) P t
Outcome-both P (ok a, s) h = h
Outcome-both P (err e, s) h = h

module _ {ℓ} {S A : Type ℓ} (P : S → Type ℓ) where
  -- What holds however the action ends.
  pub Triple-both :
      (m : Action S A) (Q : S → Type ℓ) → ((s : S) → P s → Q (m s).1) → Triple P m (λ _. Q) Q
  Triple-both m Q h = record { at = λ s x. Outcome-both Q (m s) (h s x) }

  pub Triple-of_Keeps : (m : Action S A) → Keeps P m → Triple P m (λ _. P) P
  Triple-of_Keeps m k = record { at = λ s h. Outcome-both P (m s) (k.at s h) }

  pub Triple-pure :
      (a : A) (Q : A → S → Type ℓ) (E : S → Type ℓ)
      → ((s : S) → P s → Q a s)
      → Triple P (pure a) Q E
  unfolding pure
  Triple-pure a Q E h = record { at = h }

  pub Triple-throw : (e : Error) (Q : A → S → Type ℓ) → Triple P (throw e) Q P
  unfolding throw
  Triple-throw e Q = record { at = λ s h. h }

module _ {ℓ} {S A B : Type ℓ} {Q : A → S → Type ℓ} (R : B → S → Type ℓ) {E : S → Type ℓ} where
  pub Outcome-continue :
      (t : Result A × S) (f : A → Action S B)
      → ((a : A) → Triple (Q a) (f a) R E)
      → Outcome Q E t
      → Outcome R E (continue t.0 f t.1)
  Outcome-continue (ok a, s) f k h = (k a).at s h
  Outcome-continue (err e, s) f k h = h

  pub Triple-bind :
      {P : S → Type ℓ} (m : Action S A) (f : A → Action S B)
      → Triple P m Q E
      → ((a : A) → Triple (Q a) (f a) R E)
      → Triple P (m >>= f) R E
  unfolding ◌>>=◌
  Triple-bind m f hm hf = record { at = λ s h. Outcome-continue (m s) f hf (hm.at s h) }

module _ {ℓ} {S A : Type ℓ} (Q : A → S → Type ℓ) {E : S → Type ℓ} (F : S → Type ℓ) where
  Outcome-handle_error :
      (t : Result A × S) (h : Error → Action S A)
      → ((e : Error) → Triple E (h e) Q F)
      → Outcome Q E t
      → Outcome Q F (handle_error t.0 h t.1)
  Outcome-handle_error (ok a, s) h k x = x
  Outcome-handle_error (err e, s) h k x = (k e).at s x

  pub Triple-try_catch :
      {P : S → Type ℓ} (m : Action S A) (h : Error → Action S A)
      → Triple P m Q E
      → ((e : Error) → Triple E (h e) Q F)
      → Triple P (try_catch m h) Q F
  unfolding try_catch
  Triple-try_catch m h hm hh = record { at = λ s x. Outcome-handle_error (m s) h hh (hm.at s x) }

Outcome-weaken {ℓ} :
    {S A : Type ℓ} (Q : A → S → Type ℓ) (E F : S → Type ℓ) (t : Result A × S)
    → ((s : S) → E s → F s)
    → Outcome Q E t
    → Outcome Q F t
Outcome-weaken Q E F (ok a, s) w h = h
Outcome-weaken Q E F (err e, s) w h = w s h

pub Triple-weaken {ℓ} :
    {S A : Type ℓ} {P : S → Type ℓ} {Q : A → S → Type ℓ} (E F : S → Type ℓ) (m : Action S A)
    → ((s : S) → E s → F s)
    → Triple P m Q E
    → Triple P m Q F
Triple-weaken {Q} E F m w h = record { at = λ s x. Outcome-weaken Q E F (m s) w (h.at s x) }

Outcome-any {ℓ} : {S A : Type ℓ} (t : Result A × S) → Outcome (λ _ _. Unit) (λ _. Unit) t
Outcome-any (ok a, s) = tt
Outcome-any (err e, s) = tt

module _ {ℓ} {S A B : Type ℓ} {P : S → Type ℓ} where
  -- An action that ends by a throw has no result.
  pub Triple-rethrow :
      (m : Action S A) (e : Error) (Q : B → S → Type ℓ)
      → Triple P (m >>= λ _. throw e) Q (λ _. Unit)
  Triple-rethrow m e Q =
      Triple-bind Q m (λ _. throw e) (record { at = λ s h. Outcome-any (m s) })
        (λ a. Triple-throw (λ _. Unit) e Q)

-- Nothing is known of an action that is not looked into.
pub Triple-any {ℓ} :
    {S A : Type ℓ} {P : S → Type ℓ} (m : Action S A) → Triple P m (λ _ _. Unit) (λ _. Unit)
Triple-any m = record { at = λ s h. Outcome-any (m s) }

pub Triple-keep {ℓ} :
    {S A : Type ℓ} {P : S → Type ℓ} {m : Action S A} → Keeps P m → Triple P m (λ _. P) (λ _. Unit)
Triple-keep {P} {m} k = Triple-weaken P (λ _. Unit) m (λ s h. tt) (Triple-of_Keeps P m k)

module _ {ℓ} {S A : Type ℓ} {Q : A → S → Type ℓ} (R : A → S → Type ℓ) (E : S → Type ℓ) where
  Outcome-map :
      (t : Result A × S) → ((a : A) (s : S) → Q a s → R a s) → Outcome Q E t → Outcome R E t
  Outcome-map (ok a, s) f h = f a s h
  Outcome-map (err e, s) f h = h

  pub Triple-map :
      {P : S → Type ℓ} (m : Action S A)
      → ((a : A) (s : S) → Q a s → R a s)
      → Triple P m Q E
      → Triple P m R E
  Triple-map m f h = record { at = λ s x. Outcome-map (m s) f (h.at s x) }

module _ {ℓ} {S A : Type ℓ} {P : S → Type ℓ} (Q : A → S → Type ℓ) where
  -- A result that is not computed in the action: it ends well when the result is one.
  pub Triple-lift :
      (t : Result A) → ((a : A) (s : S) → t ≡ ok a → P s → Q a s) → Triple P (lift t) Q (λ _. Unit)
  unfolding lift
  Triple-lift (ok a) h = record { at = λ s x. h a s refl x }
  Triple-lift (err e) h = record { at = λ s x. tt }

-- What a run that returned has done.
pub Triple-run {ℓ} :
    {S A : Type ℓ} {P : S → Type ℓ} (Q : A → S → Type ℓ) (E : S → Type ℓ) {m : Action S A}
    → Triple P m Q E
    → {s s' : S} {a : A} → P s
    → m s ≡ (ok a, s')
    → Q a s'
Triple-run Q E t h e = subst (Outcome Q E) e (t.at _ h)

Outcome-after {ℓ} :
    {S A : Type ℓ} (Q : S → Type ℓ) (t : Result A × S) → Outcome (λ _. Q) Q t → Q t.1
Outcome-after Q (ok a, s) h = h
Outcome-after Q (err e, s) h = h

pub Triple-after {ℓ} :
    {S A : Type ℓ} {P : S → Type ℓ} (Q : S → Type ℓ) (m : Action S A)
    → Triple P m (λ _. Q) Q
    → (s : S) → P s
    → Q (m s).1
Triple-after Q m t s h = Outcome-after Q (m s) (t.at s h)

module _ {ℓ} {S A : Type ℓ} (Q : A → S → Type ℓ) (E R : S → Type ℓ) where
  Outcome-and :
      (t : Result A × S) → Outcome Q E t → R t.1 → Outcome (λ a s. Q a s × R s) (λ s. E s × R s) t
  Outcome-and (ok a, s) h r = (h, r)
  Outcome-and (err e, s) h r = (h, r)

  pub Triple-and :
      {P : S → Type ℓ} {m : Action S A}
      → Triple P m Q E
      → Keeps R m
      → Triple (λ s. P s × R s) m (λ a s. Q a s × R s) (λ s. E s × R s)
  Triple-and {m} t k = record { at = λ s h. Outcome-and (m s) (t.at s h.0) (k.at s h.1) }

pub Triple-require {ℓ} :
    {S A : Type ℓ} {P R : S → Type ℓ} {m : Action S A} {Q : A → S → Type ℓ} {E : S → Type ℓ}
    → ((s : S) → R s → P s)
    → Triple P m Q E
    → Triple R m Q E
Triple-require f t = record { at = λ s h. t.at s (f s h) }
