-- ===== src/Push/Tokens.antt =====
-- The unique columns of the push tokens.
use banking_mobile_backend.Prelude.{
  ℕ, String, suc, ◌<◌, ◌≡◌, refl, false, Option, none, some, List, [], ◌∷◌, ◌++◌, ◌==◌, All,
  Bool-cases, Result-cases, inl, inr, update_where, any, arith, eq_iff,
}
use banking_mobile_backend.Prelude.Keeps.{Keeps, keeps_rules}
use banking_mobile_backend.Prelude.Unique.{
  numbered, taken, update_row, insert_row, Distinct, Distinct-append, Distinct-update,
  update_row-run,
}
use banking_mobile_backend.Push.{
  DeviceToken, PushStore, RegisterDevicePayload, clash, same_device, update_token, create_token,
  upsert_found, upsert_by_token, upsert_existing, upsert_device_token, register_device,
}

-- The unique columns of the table, and numbers below the next one.
pub record IsConsistent (s : PushStore) : Type 0 where
  pub distinct : Distinct (λ r. r.id) clash s.rows
  pub below : All (λ r. r.id < s.next_id) s.rows

same_device_comm : (a b : Option String) → same_device a b ≡ same_device b a
same_device_comm none none = refl
same_device_comm none (some b) = refl
same_device_comm (some a) none = refl
same_device_comm (some a) (some b) = ground (arith, eq_iff a b, eq_iff b a)

pub clash_comm : (r q : DeviceToken) → clash r q ≡ clash q r
clash_comm r q = ground (
  arith,
  same_device_comm r.device_id q.device_id,
  eq_iff r.fcm_token q.fcm_token,
  eq_iff q.fcm_token r.fcm_token,
)

module _ (k : ℕ) (change : DeviceToken → DeviceToken)
    (keeps : (r : DeviceToken) → (change r).id ≡ r.id) where
  below-update :
      (n : ℕ) (rows : List DeviceToken)
      → All (λ r. r.id < n) rows
      → All (λ r. r.id < n) (update_where (numbered (λ r. r.id) clash k) change rows)
  unfolding update_where
  below-update n [] h = tt
  below-update n (r ∷ rs) (h, hs) = (ground (arith, h, keeps r), below-update n rs hs)

  pub update_token-IsConsistent : Keeps IsConsistent (update_token k change)
  unfolding update_token
  update_token-IsConsistent = record {
    at = λ s h. elim (Result-cases (update_row (λ r. r.id) clash k change s.rows)) [
      | inl (e, failed) ↦ rw (failed, update_token) h
      | inr (rows, done) ↦
          let (r, found, free, same) =
            update_row-run (λ r. r.id) clash clash_comm k change keeps s.rows rows done in
          rw (done, same, update_token)
            (record {
              distinct =
                  Distinct-update (λ r. r.id) clash clash_comm k change keeps r s.rows found free
                    h.distinct;
              below = below-update s.next_id s.rows h.below;
            })
    ];
  }

module _ (n : ℕ) where
  unlike :
      (rows : List DeviceToken) → All (λ r. r.id < n) rows → All (λ r. (n == r.id) ≡ false) rows
  unlike [] h = tt
  unlike (r ∷ rs) (h, hs) = (ground (arith, h), unlike rs hs)

  below-append :
      (rows : List DeviceToken) (r : DeviceToken)
      → r.id ≡ n
      → All (λ r. r.id < n) rows
      → All (λ r. r.id < suc n) (rows ++ (r ∷ []))
  below-append [] r same h = (omega (arith, same), tt)
  below-append (q ∷ qs) r same (h, hs) = (omega (arith, h), below-append qs r same hs)

pub create_token-IsConsistent :
    (row : ℕ → DeviceToken) → ((n : ℕ) → (row n).id ≡ n) → Keeps IsConsistent (create_token row)
unfolding create_token insert_row
create_token-IsConsistent row numbers = record {
  at = λ s h. elim (Bool-cases (any (clash (row s.next_id)) s.rows)) [
    | inl taken ↦ rw (taken, create_token) h
    | inr free ↦
        rw (free, create_token)
          (record {
            distinct =
                Distinct-append (λ r. r.id) clash clash_comm (row s.next_id) s.rows
                  (rw (numbers s.next_id) (unlike s.next_id s.rows h.below)) free h.distinct;
            below = below-append s.next_id s.rows (row s.next_id) (numbers s.next_id) h.below;
          })
  ];
}

module _ (now user : ℕ) (payload : RegisterDevicePayload) where
  upsert_found-IsConsistent :
      (found : Option DeviceToken)
      → Keeps IsConsistent
          (upsert_found now user payload.fcm_token payload.platform payload.device_id found)
  upsert_found-IsConsistent (some r) = update_token-IsConsistent r.id _ (λ q. refl)
  upsert_found-IsConsistent none = create_token-IsConsistent _ (λ n. refl)

  upsert_existing-IsConsistent :
      (existing : Option DeviceToken)
      → Keeps IsConsistent
          (upsert_existing now user payload.fcm_token payload.platform payload.device_id existing)
  unfolding upsert_by_token
  upsert_existing-IsConsistent (some r) = update_token-IsConsistent r.id _ (λ q. refl)
  upsert_existing-IsConsistent none = search (keeps_rules, upsert_found-IsConsistent) depth 8

  -- A registration keeps the unique columns of the table.
  register_device-IsConsistent :
      (s : PushStore) → IsConsistent s → IsConsistent (register_device now user payload s).1
  unfolding register_device upsert_device_token
  register_device-IsConsistent s h =
      let kept : Keeps IsConsistent (register_device now user payload) =
        search (keeps_rules, upsert_existing-IsConsistent) in
      kept.at s h
