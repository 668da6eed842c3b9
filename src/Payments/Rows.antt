-- ===== src/Payments/Rows.antt =====
-- A payment found by a column that is not the id, under changes of its row.
use banking_mobile_backend.Prelude.{
  ℕ, String, ◌≡◌, refl, ◌∙◌, Bool, some, List, [], ◌∷◌, Bool-cases, Option-cases, inl, inr, arith,
  find, update_where, any, Result, if◌then◌else◌,
}
use banking_mobile_backend.Prelude.Keeps.{Keeps}
use banking_mobile_backend.Prelude.Triple.{Triple}
use banking_mobile_backend.Payments.{Payment}
use banking_mobile_backend.Payments.Services.{Store, Call, ask, send_proof}
use banking_mobile_backend.Payments.Repository.{has_id, taken, update_payment}

module _ (test : Payment → Bool) (id : ℕ) where
  -- The row that the test finds has the id, and `P` holds of it.
  pub record FindsBy (P : Payment → Type 0) (s : Store) : Type 0 where
    pub row : Payment
    pub found : find test s.payments ≡ some row
    pub same_id : row.id ≡ id
    pub holds : P row

  module _ (f : Payment → Payment) (keeps_id : (p : Payment) → (f p).id ≡ p.id)
      (keeps : (p : Payment) → test (f p) ≡ test p) where
    find-test-update_where :
        (ps : List Payment) (p : Payment)
        → find test ps ≡ some p
        → p.id ≡ id
        → find test (update_where (has_id id) f ps) ≡ some (f p)
    unfolding find update_where
    find-test-update_where [] p e same = cc
    find-test-update_where (q ∷ qs) p e same = ground (arith, keeps q, find-test-update_where qs p)

    pub update_payment-FindsBy :
        (P Q : Payment → Type 0)
        → ((p : Payment) → P p → Q (f p))
        → Triple (FindsBy P) (update_payment id f) (λ _. FindsBy Q) (FindsBy P)
    unfolding update_payment
    update_payment-FindsBy P Q step = record {
      at = λ s h. elim (Option-cases (find (has_id id) s.payments)) [
        | inl missing ↦ rw (missing, update_payment) h
        | inr (p, found) ↦ elim (Bool-cases (any (taken id (f p)) s.payments)) [
          | inl clash ↦ rw (found, clash, update_payment) h
          | inr free ↦
              rw (found, free, update_payment)
                (record {
                  row = f h.row;
                  found = find-test-update_where s.payments h.row h.found h.same_id;
                  same_id = keeps_id h.row ∙ h.same_id;
                  holds = step h.row h.holds;
                })
        ]
      ];
    }

    find-test-update_any :
        (other : ℕ) (ps : List Payment) (p : Payment)
        → find test ps ≡ some p
        → find test (update_where (has_id other) f ps) ≡ some (if has_id other p then f p else p)
    unfolding find update_where
    find-test-update_any other [] p e = cc
    find-test-update_any other (q ∷ qs) p e =
        ground (arith, keeps q, find-test-update_any other qs p)

    kept_by :
        (other : ℕ) (P : Payment → Type 0) (p : Payment)
        → ((q : Payment) → P q → P (f q))
        → P p
        → P (if has_id other p then f p else p)
    kept_by other P p step h = elim (Bool-cases (has_id other p)) [
      | inl same ↦ rw same (step p h)
      | inr apart ↦ rw apart h
    ]

    id_of : (other : ℕ) (p : Payment) → (if has_id other p then f p else p).id ≡ p.id
    id_of other p = ground (arith, keeps_id p)

    -- A change of the row of any id.
    pub update_payment-FindsBy_any :
        (other : ℕ) (P : Payment → Type 0)
        → ((p : Payment) → P p → P (f p))
        → Keeps (FindsBy P) (update_payment other f)
    unfolding update_payment
    update_payment-FindsBy_any other P step = record {
      at = λ s h. elim (Option-cases (find (has_id other) s.payments)) [
        | inl missing ↦ rw (missing, update_payment) h
        | inr (p, found) ↦ elim (Bool-cases (any (taken other (f p)) s.payments)) [
          | inl clash ↦ rw (found, clash, update_payment) h
          | inr free ↦
              rw (found, free, update_payment)
                (record {
                  row = if has_id other h.row then f h.row else h.row;
                  found = find-test-update_any other s.payments h.row h.found;
                  same_id = id_of other h.row ∙ h.same_id;
                  holds = kept_by other P h.row step h.holds;
                })
        ]
      ];
    }

  module _ (P : Payment → Type 0) where
    -- A step that leaves the table alone.
    pub FindsBy-same : {s t : Store} → t.payments ≡ s.payments → FindsBy P s → FindsBy P t
    FindsBy-same same h = record {
      row = h.row;
      found = rw same h.found;
      same_id = h.same_id;
      holds = h.holds;
    }

    pub ask-FindsBy :
        {Q A : Type 0} (answer : List Call → Q → Result A) (tag : Q → Call) (q : Q)
        → Keeps (FindsBy P) (ask answer tag q)
    unfolding ask
    ask-FindsBy answer tag q = record { at = λ s h. FindsBy-same refl h }

    pub send_proof-FindsBy : (kind email : String) → Keeps (FindsBy P) (send_proof kind email)
    unfolding send_proof
    send_proof-FindsBy kind email = record { at = λ s h. FindsBy-same refl h }
