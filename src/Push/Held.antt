-- ===== src/Push/Held.antt =====
-- Whose a push token is after a registration.
use banking_mobile_backend.Prelude.{
  truthy, ℕ, String, ◌≡◌, refl, sym, ap, Bool, true, false, Option, none, some, List, [], ◌∷◌, ◌++◌,
  ◌==◌, All, Bool-cases, Option-cases, Result-cases, inl, inr, find, find_sound, update_where, any,
  arith, eq_iff, ok,
}
use banking_mobile_backend.Prelude.Runs.{gets-run}
use banking_mobile_backend.Prelude.Unique.{
  numbered, taken, update_row, insert_row, update_row-run, find-numbered,
}
use banking_mobile_backend.Push.{
  DeviceToken, PushStore, RegisterDevicePayload, Platform, clash, of_token, of_device, update_token,
  create_token, rotated, reassigned, new_token, upsert_found, upsert_by_token, upsert_existing,
  find_by_device, upsert_device_token, register_device,
}
use banking_mobile_backend.Push.Tokens.{IsConsistent, clash_comm}

-- The token stands in the table, and in no row but active ones of the user.
pub record IsHeld (token : String) (user : ℕ) (rows : List DeviceToken) : Type 0 where
  pub present : any (of_token token) rows ≡ true
  pub only : All (λ r. of_token token r ≡ true → (r.user_id ≡ user) × (r.is_active ≡ true)) rows

module _ (token : String) (user : ℕ) where
  abbrev Only : DeviceToken → Type 0
  Only r = of_token token r ≡ true → (r.user_id ≡ user) × (r.is_active ≡ true)

  -- A changed row holds the token, and no other row does.
  record Gives (change : DeviceToken → DeviceToken) : Type 0 where
    owner : (r : DeviceToken) → (change r).user_id ≡ user
    active : (r : DeviceToken) → (change r).is_active ≡ true

  module _ (k : ℕ) (change : DeviceToken → DeviceToken) where
    Only-update :
        (x : DeviceToken) (rows : List DeviceToken)
        → Gives change
        → (change x).fcm_token ≡ token
        → any (taken (λ r. r.id) clash k (change x)) rows ≡ false
        → All Only (update_where (numbered (λ r. r.id) clash k) change rows)
    unfolding update_where any
    Only-update x [] gives same free = tt
    Only-update x (r ∷ rs) gives same free = elim (Bool-cases (r.id == k)) [
      | inl changed ↦
          rw changed (
            λ h. (gives.owner r, gives.active r),
            Only-update x rs gives same (ground (arith, free)),
          )
      | inr other ↦ rw other (
        λ h. ground (
          arith,
          h,
          other,
          free,
          same,
          eq_iff r.fcm_token token,
          eq_iff (change x).fcm_token r.fcm_token,
        ),
        Only-update x rs gives same (ground (arith, free)),
      )
    ]

    present-update :
        (x : DeviceToken) (rows : List DeviceToken)
        → (change x).fcm_token ≡ token
        → find (numbered (λ r. r.id) clash k) rows ≡ some x
        → any (of_token token) (update_where (numbered (λ r. r.id) clash k) change rows) ≡ true
    unfolding update_where any find
    present-update x [] same found = cc found
    present-update x (r ∷ rs) same found = elim (Bool-cases (r.id == k)) [
      | inl changed ↦
          let here : r ≡ x = ground (arith, changed, found) in
          rw (changed, here) (ground (arith, same, eq_iff (change x).fcm_token token))
      | inr other ↦
          let later = present-update x rs same (ground (arith, other, found)) in
          rw other (ground (arith, later))
    ]

    update_token-IsHeld :
        (x : DeviceToken) (s : PushStore) {s' : PushStore} {u : Unit {0}}
        → Gives change
        → ((r : DeviceToken) → (change r).id ≡ r.id)
        → (change x).fcm_token ≡ token
        → find (numbered (λ r. r.id) clash k) s.rows ≡ some x
        → update_token k change s ≡ (ok u, s')
        → IsHeld token user s'.rows
    unfolding update_token
    update_token-IsHeld x s gives keeps same found run =
        elim (Result-cases (update_row (λ r. r.id) clash k change s.rows)) [
          | inl (e, failed) ↦ absurd (cc (rw (failed, update_token) at run))
          | inr (rows, done) ↦
              let (y, found', free, after) =
                update_row-run (λ r. r.id) clash clash_comm k change keeps s.rows rows done in
              let here : y ≡ x = cc (found, found') in
              let stored = ap (λ t. t.1.rows) (rw (done, update_token) at run) in
              rw (sym stored, after)
                (record {
                  present = present-update x s.rows same found;
                  only = Only-update x s.rows gives same (rw here at free);
                })
        ]

  Only-append :
      (new : DeviceToken) (rows : List DeviceToken)
      → new.fcm_token ≡ token
      → new.user_id ≡ user
      → new.is_active ≡ true
      → any (clash new) rows ≡ false
      → All Only (rows ++ (new ∷ []))
  unfolding any
  Only-append new [] same owner active free = (λ h. (owner, active), tt)
  Only-append new (r ∷ rs) same owner active free = (
    λ h. ground (arith, h, free, same, eq_iff r.fcm_token token, eq_iff new.fcm_token r.fcm_token),
    Only-append new rs same owner active (ground (arith, free)),
  )

  present-append :
      (new : DeviceToken) (rows : List DeviceToken)
      → new.fcm_token ≡ token
      → any (of_token token) (rows ++ (new ∷ [])) ≡ true
  unfolding any
  present-append new [] same = ground (arith, same, eq_iff new.fcm_token token)
  present-append new (r ∷ rs) same = ground (arith, present-append new rs same)

  create_token-IsHeld :
      (row : ℕ → DeviceToken) (s : PushStore) {s' : PushStore} {u : Unit {0}}
      → ((n : ℕ) → (row n).fcm_token ≡ token)
      → ((n : ℕ) → (row n).user_id ≡ user)
      → ((n : ℕ) → (row n).is_active ≡ true)
      → create_token row s ≡ (ok u, s')
      → IsHeld token user s'.rows
  unfolding create_token insert_row
  create_token-IsHeld row s same owner active run =
      let n = s.next_id in
      elim (Bool-cases (any (clash (row n)) s.rows)) [
        | inl taken ↦ absurd (cc (rw (taken, create_token) at run))
        | inr free ↦
            let stored = ap (λ t. t.1.rows) (rw (free, create_token) at run) in
            rw (sym stored) (record {
              present = present-append (row n) s.rows (same n);
              only = Only-append (row n) s.rows (same n) (owner n) (active n) free;
            })
      ]

module _ (now user : ℕ) (token : String) (platform : Platform) (device : Option String)
    (s : PushStore) (h : IsConsistent s) where
  found_row :
      (p : DeviceToken → Bool) (r : DeviceToken)
      → find p s.rows ≡ some r
      → find (numbered (λ r. r.id) clash r.id) s.rows ≡ some r
  found_row p r = find-numbered (λ r. r.id) clash p r s.rows h.distinct

  upsert_by_token-IsHeld :
      {s' : PushStore} {u : Unit {0}}
      → upsert_by_token now user token platform device s ≡ (ok u, s')
      → IsHeld token user s'.rows
  unfolding upsert_by_token
  upsert_by_token-IsHeld run =
      let run1 = gets-run _ (upsert_found now user token platform device) run in
      elim (Option-cases (find (of_token token) s.rows)) [
        | inl missing ↦
            create_token-IsHeld token user (new_token now user token platform device) s (λ n. refl)
              (λ n. refl) (λ n. refl) (rw missing at run1)
        | inr (r, found) ↦
            update_token-IsHeld token user r.id (reassigned now user token platform device) r s
              (record { owner = λ q. refl; active = λ q. refl }) (λ q. refl)
              ((eq_iff r.fcm_token token).0 (find_sound (of_token token) s.rows r found))
              (found_row (of_token token) r found) (rw found at run1)
      ]

  by_device :
      (d : Option String) (r : DeviceToken)
      → find_by_device now user token platform device d s.rows ≡ some r
      → find (numbered (λ r. r.id) clash r.id) s.rows ≡ some r
  by_device none r e = cc e
  by_device (some d) r e = found_row (of_device d) r e

  upsert_device_token-IsHeld :
      {s' : PushStore} {u : Unit {0}} (existing : Option DeviceToken)
      → find_by_device now user token platform device (truthy device) s.rows ≡ existing
      → upsert_existing now user token platform device existing s ≡ (ok u, s')
      → IsHeld token user s'.rows
  upsert_device_token-IsHeld none e run = upsert_by_token-IsHeld run
  upsert_device_token-IsHeld (some r) e run =
      update_token-IsHeld token user r.id (rotated now user token platform device) r s
        (record { owner = λ q. refl; active = λ q. refl }) (λ q. refl) refl
        (by_device (truthy device) r e) run

-- A registration that returns has made its token one of the user's active tokens, and left it in no
-- row of another user and in no inactive row, when the table was consistent.
pub register_device-IsHeld :
    (now user : ℕ) (payload : RegisterDevicePayload) (s : PushStore) {s' : PushStore} {u : Unit {0}}
    → IsConsistent s
    → register_device now user payload s ≡ (ok u, s')
    → IsHeld payload.fcm_token user s'.rows
unfolding register_device upsert_device_token
register_device-IsHeld now user payload s h run =
    upsert_device_token-IsHeld now user payload.fcm_token payload.platform payload.device_id s h _
      refl
      (gets-run _ (upsert_existing now user payload.fcm_token payload.platform payload.device_id)
        run)
