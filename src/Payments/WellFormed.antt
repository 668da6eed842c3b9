-- ===== src/Payments/WellFormed.antt =====
-- The constraints of the `payments` table in prisma/schema.prisma, as an invariant of the store.
use banking_mobile_backend.Prelude.{
  ℕ, String, ◌≡◌, refl, ◌∙◌, Bool, true, false, ◌||◌, Option, none, some, List, [], ◌∷◌, ◌++◌, ◌<◌,
  ◌+◌, ◌==◌, str_eq, Bool-cases, Option-cases, inl, inr, All, arith, eq_iff, find, update_where,
  any,
}
use banking_mobile_backend.Prelude.Keeps.{Keeps}
use banking_mobile_backend.Payments.{Payment, Provider, clip, qrbmsc}
use banking_mobile_backend.Payments.Services.{Store}
use banking_mobile_backend.Payments.Repository.{
  has_id, same_provider, same_key, clashes, taken, update_payment, create_row,
}

-- Two rows differ in their ids, their idempotency keys and their provider's ids.
pub record Apart (p q : Payment) : Type 0 where
  pub ids : (p.id == q.id) ≡ false
  pub keys : str_eq p.idempotency_key q.idempotency_key ≡ false
  pub provider_ids : clashes p q ≡ false

abbrev pub Distinct : List Payment → Type 0
Distinct [] = Unit
Distinct (p ∷ ps) = All (Apart p) ps × Distinct ps

pub record IsWellFormed (s : Store) : Type 0 where
  pub distinct : Distinct s.payments
  pub numbered : All (λ p. p.id < s.next_id) s.payments

str_eq_comm : (s t : String) → str_eq s t ≡ str_eq t s
str_eq_comm s t = ground (arith, eq_iff s t, eq_iff t s)

same_provider_comm : (p q : Provider) → same_provider p q ≡ same_provider q p
same_provider_comm clip clip = refl
same_provider_comm clip qrbmsc = refl
same_provider_comm qrbmsc clip = refl
same_provider_comm qrbmsc qrbmsc = refl

same_key_comm : (p q : Provider) (a b : Option String) → same_key p a q b ≡ same_key q b p a
same_key_comm p q none none = refl
same_key_comm p q none (some b) = ground arith
same_key_comm p q (some a) none = ground arith
same_key_comm p q (some a) (some b) = cc (same_provider_comm p q, str_eq_comm a b)

clashes_comm : (p q : Payment) → clashes p q ≡ clashes q p
clashes_comm p q = same_key_comm p.provider q.provider p.provider_payment_id q.provider_payment_id

-- A change of one row that keeps its id and its idempotency key.
pub record KeepsKeys (f : Payment → Payment) : Type 0 where
  pub id : (p : Payment) → (f p).id ≡ p.id
  pub key : (p : Payment) → (f p).idempotency_key ≡ p.idempotency_key

module _ (id : ℕ) (f : Payment → Payment) (keeps : KeepsKeys f) where
  -- No row of `ps` has the id.
  update_where-absent :
      (p : Payment) (ps : List Payment)
      → has_id id p ≡ true
      → All (Apart p) ps
      → update_where (has_id id) f ps ≡ ps
  unfolding update_where
  update_where-absent p [] h a = refl
  update_where-absent p (q ∷ qs) h (a, as') = ground (arith, a.ids, update_where-absent p qs h as')

  Apart-changed :
      (p : Payment) (ps : List Payment)
      → has_id id p ≡ true
      → All (Apart p) ps
      → any (taken id (f p)) ps ≡ false
      → All (Apart (f p)) ps
  unfolding any
  Apart-changed p [] h a free = tt
  Apart-changed p (q ∷ qs) h (a, as') free = (
    record {
      ids = ground (arith, a.ids, keeps.id p);
      keys = ground (arith, a.keys, keeps.key p);
      provider_ids = ground (arith, a.ids, keeps.id p);
    },
    Apart-changed p qs h as' (ground arith),
  )

  Apart-change : (x q : Payment) → Apart x q → clashes (f q) x ≡ false → Apart x (f q)
  Apart-change x q a free = record {
    ids = rw (keeps.id q) a.ids;
    keys = rw (keeps.key q) a.keys;
    provider_ids = clashes_comm x (f q) ∙ free;
  }

  Apart-update_where :
      (p x : Payment) (ps : List Payment)
      → find (has_id id) ps ≡ some p
      → Distinct ps
      → clashes (f p) x ≡ false
      → All (Apart x) ps
      → All (Apart x) (update_where (has_id id) f ps)
  unfolding find update_where
  Apart-update_where p x [] e d free a = tt
  Apart-update_where p x (q ∷ qs) e (dq, ds) free (a, as') = elim (Bool-cases (has_id id q)) [
    | inl same ↦
        let found : q ≡ p = ground arith in
        rw (same, update_where-absent q qs same dq) (Apart-change x q a (rw found free), as')
    | inr other ↦ rw other (a, Apart-update_where p x qs (ground arith) ds free as')
  ]

  Distinct-update_where :
      (p : Payment) (ps : List Payment)
      → find (has_id id) ps ≡ some p
      → any (taken id (f p)) ps ≡ false
      → Distinct ps
      → Distinct (update_where (has_id id) f ps)
  unfolding find update_where any
  Distinct-update_where p [] e free d = tt
  Distinct-update_where p (q ∷ qs) e free (dq, ds) = elim (Bool-cases (has_id id q)) [
    | inl same ↦
        let found : q ≡ p = ground arith in
        rw (same, update_where-absent q qs same dq)
          (Apart-changed q qs same dq (rw found (ground arith)), ds)
    | inr other ↦
        let clear : clashes (f p) q ≡ false = ground arith in
        rw other (
          Apart-update_where p q qs (ground arith) ds clear dq,
          Distinct-update_where p qs (ground arith) (ground arith) ds,
        )
  ]

  numbered-update_where :
      (n : ℕ) (ps : List Payment)
      → All (λ p. p.id < n) ps
      → All (λ p. p.id < n) (update_where (has_id id) f ps)
  unfolding update_where
  numbered-update_where n [] h = tt
  numbered-update_where n (p ∷ ps) (h, hs) =
      (ground (arith, keeps.id p), numbered-update_where n ps hs)

  -- An update through the client meets the constraints, since the client refuses any other.
  pub update_payment-IsWellFormed : Keeps IsWellFormed (update_payment id f)
  unfolding update_payment
  update_payment-IsWellFormed = record {
    at = λ s h. elim (Option-cases (find (has_id id) s.payments)) [
      | inl missing ↦ rw (missing, update_payment) h
      | inr (p, found) ↦ elim (Bool-cases (any (taken id (f p)) s.payments)) [
        | inl clash ↦ rw (found, clash, update_payment) h
        | inr free ↦
            rw (found, free, update_payment)
              (record {
                distinct = Distinct-update_where p s.payments found free h.distinct;
                numbered = numbered-update_where s.next_id s.payments h.numbered;
              })
      ]
    ];
  }

All-append_one :
    (P : Payment → Type 0) (ps : List Payment) (p : Payment) → All P ps → P p → All P (ps ++ p ∷ [])
All-append_one P [] p h hp = (hp, tt)
All-append_one P (q ∷ qs) p (h, hs) hp = (h, All-append_one P qs p hs hp)

All-weaken_id : (n : ℕ) (ps : List Payment) → All (λ p. p.id < n) ps → All (λ p. p.id < n + 1) ps
All-weaken_id n [] h = tt
All-weaken_id n (p ∷ ps) (h, hs) = (omega arith, All-weaken_id n ps hs)

abbrev taken_by_new : Payment → Payment → Bool
taken_by_new p q = str_eq q.idempotency_key p.idempotency_key || clashes p q

Distinct-append :
    (n : ℕ) (ps : List Payment) (p : Payment)
    → p.id ≡ n
    → Distinct ps
    → All (λ q. q.id < n) ps
    → any (taken_by_new p) ps ≡ false
    → Distinct (ps ++ p ∷ [])
unfolding any
Distinct-append n [] p e d h free = (tt, tt)
Distinct-append n (q ∷ qs) p e (dq, ds) (h, hs) free = (
  All-append_one (Apart q) qs p dq (record {
    ids = ground arith;
    keys = ground (arith, eq_iff q.idempotency_key p.idempotency_key);
    provider_ids = ground (arith, clashes_comm q p);
  }),
  Distinct-append n qs p e ds hs (ground arith),
)

pub create_row-IsWellFormed :
    (row : ℕ → Payment) → ((n : ℕ) → (row n).id ≡ n) → Keeps IsWellFormed (create_row row)
unfolding create_row
create_row-IsWellFormed row numbers = record {
  at = λ s h.
      let p = row s.next_id in
      elim (Bool-cases (any (taken_by_new p) s.payments)) [
        | inl clash ↦ rw clash h
        | inr free ↦ rw free (record {
          distinct =
              Distinct-append s.next_id s.payments p (numbers s.next_id) h.distinct h.numbered free;
          numbered =
              All-append_one (λ q. q.id < s.next_id + 1) s.payments p
                (All-weaken_id s.next_id s.payments h.numbered) (omega (arith, numbers s.next_id));
        })
      ];
}
