-- ===== src/Biometric/Used.antt =====
-- A used challenge stays used, whatever happens next.
use banking_mobile_backend.Prelude.{
  Result, ℕ, String, ◌≡◌, refl, Bool, true, some, List, [], ◌∷◌, ◌++◌, is_some, if◌then◌else◌,
  Option-cases, Bool-cases, inl, inr, arith, find, update_where, any,
}
use banking_mobile_backend.Prelude.Keeps.{Keeps, keeps_rules}
use banking_mobile_backend.Biometric.{
  Challenge, Credential, Devices, has_id, has_device, used, create_login_challenge, mark_used,
  upsert_credential, touch_last_used, enroll, create_challenge, verify_challenge, find_by_id,
  find_active_by_device_id, BiometricEnrollRequest, BiometricVerifyRequest,
}

find-first {ℓ} :
    {A : Type ℓ} (p : A → Bool) (xs : List A) (x y : A)
    → find p xs ≡ some x
    → find p (xs ++ y ∷ []) ≡ some x
unfolding find
find-first p [] x y e = cc
find-first p (z ∷ zs) x y e = ground (arith, find-first p zs x y)

pub find-marked :
    (now : ℕ) (id other : String) (cs : List Challenge) (c : Challenge)
    → find (has_id id) cs ≡ some c
    → find (has_id id) (update_where (has_id other) (used now) cs)
      ≡ some (if has_id other c then used now c else c)
unfolding find update_where
find-marked now id other [] c e = cc
find-marked now id other (d ∷ ds) c e = ground (arith, find-marked now id other ds c)

-- The challenge of the id is there and has been used.
pub record IsUsed (id : String) (s : Devices) : Type 0 where
  pub row : Challenge
  pub found : find (has_id id) s.challenges ≡ some row
  pub is_used : is_some row.used_at ≡ true

module _ (id : String) where
  IsUsed-same : {s t : Devices} → t.challenges ≡ s.challenges → IsUsed id s → IsUsed id t
  IsUsed-same same h = record { row = h.row; found = rw same h.found; is_used = h.is_used }

  upsert_credential-IsUsed : (c : Credential) → Keeps (IsUsed id) (upsert_credential c)
  unfolding upsert_credential
  upsert_credential-IsUsed c = record {
    at = λ s h. elim (Option-cases (find (has_device c.device_id) s.credentials)) [
      | inl missing ↦ rw (missing, upsert_credential) (IsUsed-same refl h)
      | inr (old, found) ↦ rw (found, upsert_credential) (IsUsed-same refl h)
    ];
  }

  pub touch_last_used-IsUsed :
      (now : ℕ) (device : String) → Keeps (IsUsed id) (touch_last_used now device)
  unfolding touch_last_used
  touch_last_used-IsUsed now device = record {
    at = λ s h. elim (Option-cases (find (has_device device) s.credentials)) [
      | inl missing ↦ rw (missing, touch_last_used) h
      | inr (c, found) ↦ rw (found, touch_last_used) (IsUsed-same refl h)
    ];
  }

  create_login_challenge-IsUsed : (c : Challenge) → Keeps (IsUsed id) (create_login_challenge c)
  unfolding create_login_challenge
  create_login_challenge-IsUsed c = record {
    at = λ s h. elim (Bool-cases (any (has_id c.id) s.challenges)) [
      | inl taken ↦ rw (taken, create_login_challenge) h
      | inr free ↦
          rw (free, create_login_challenge)
            (record {
              row = h.row;
              found = find-first (has_id id) s.challenges h.row c h.found;
              is_used = h.is_used;
            })
    ];
  }

  marked-is_used :
      (now : ℕ) (other : String) (c : Challenge)
      → is_some c.used_at ≡ true
      → is_some (if has_id other c then used now c else c).used_at ≡ true
  marked-is_used now other c h = ground arith

  mark_used-IsUsed : (now : ℕ) (other : String) → Keeps (IsUsed id) (mark_used now other)
  unfolding mark_used
  mark_used-IsUsed now other = record {
    at = λ s h. elim (Option-cases (find (has_id other) s.challenges)) [
      | inl missing ↦ rw (missing, mark_used) h
      | inr (c, found) ↦
          rw (found, mark_used)
            (record {
              row = if has_id other h.row then used now h.row else h.row;
              found = find-marked now id other s.challenges h.row h.found;
              is_used = marked-is_used now other h.row h.is_used;
            })
    ];
  }

  ruleset used_rules = (
    keeps_rules, upsert_credential-IsUsed, touch_last_used-IsUsed, create_login_challenge-IsUsed,
    mark_used-IsUsed,
  )

  pub enroll-IsUsed :
      (user_id : ℕ) (dto : BiometricEnrollRequest) → Keeps (IsUsed id) (enroll user_id dto)
  unfolding enroll
  enroll-IsUsed user_id dto = search used_rules

  pub create_challenge-IsUsed :
      (now : ℕ) (new challenge device : String)
      → Keeps (IsUsed id) (create_challenge now new challenge device)
  unfolding create_challenge find_active_by_device_id
  create_challenge-IsUsed now new challenge device = search used_rules depth 12

  pub verify_challenge-IsUsed :
      (verify : String → String → String → Result Bool) (now : ℕ) (dto : BiometricVerifyRequest)
      → Keeps (IsUsed id) (verify_challenge verify now dto)
  unfolding verify_challenge find_by_id find_active_by_device_id
  verify_challenge-IsUsed verify now dto = search used_rules depth 24
