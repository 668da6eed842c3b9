-- ===== src/Biometric/Login.antt =====
-- Who is logged in by a signature, and how often one challenge serves.
use banking_mobile_backend.Prelude.{
  ℕ, String, ◌≡◌, ◌≢◌, refl, sym, ap, ◌∙◌, Bool, true, false, not, some, is_some, ltb,
  if◌then◌else◌, Option-cases, Bool-cases, inl, inr, arith, find, find_sound, str_eq, Result, ok,
  lift, Action, ◌>>◌, pure,
}
use banking_mobile_backend.Prelude.Keeps.{keeps_rules}
use banking_mobile_backend.Prelude.Triple.{Triple, Triple-run, Triple-bind, Triple-keep}
use banking_mobile_backend.Prelude.Runs.{gets-run, or_throw-run, bind-run, throw_if-run, pure-run}
use banking_mobile_backend.Biometric.{
  Challenge, Credential, Devices, has_id, is_active, of_device, used, mark_used, touch_last_used,
  enroll, create_challenge, verify_challenge, find_by_id, find_active_by_device_id,
  BiometricEnrollRequest, BiometricVerifyRequest,
}
use banking_mobile_backend.Biometric.Used.{
  IsUsed, find-marked, touch_last_used-IsUsed, enroll-IsUsed, create_challenge-IsUsed,
  verify_challenge-IsUsed,
}

-- What stands behind a login: a challenge of the device that was not used and not past its expiry,
-- an active credential of the device and of the user, and its signature on the challenge.
pub record IsEntitled (verify : String → String → String → Result Bool) (now : ℕ)
    (dto : BiometricVerifyRequest) (user : ℕ) (s : Devices) : Type 0 where
  pub row : Challenge
  pub credential : Credential
  pub found : of_device dto.device_id (find (has_id dto.challenge_id) s.challenges) ≡ some row
  pub unused : is_some row.used_at ≡ false
  pub in_time : ltb row.expires_at now ≡ false
  pub active : find (is_active dto.device_id) s.credentials ≡ some credential
  pub signed : verify credential.public_key_json row.challenge dto.signature ≡ ok true
  pub of_user : credential.user_id ≡ user

lift-run :
    {A : Type 0} (r : Result A) (s : Devices) {a : A} {s' : Devices}
    → lift r s ≡ (ok a, s')
    → (r ≡ ok a) × (s ≡ s')
unfolding lift
lift-run r s run = (cc, cc)

not-false : (b : Bool) → not b ≡ false → b ≡ true
not-false b h = ground arith

abbrev Marks : {A : Type 0} (id : String) → Action Devices A → Type 0
Marks id m = Triple (λ _. Unit {0}) m (λ _. IsUsed id) (λ _. Unit {0})

mark_used-IsUsed : (now : ℕ) (id : String) → Marks id (mark_used now id)
unfolding mark_used
mark_used-IsUsed now id = record {
  at = λ s h. elim (Option-cases (find (has_id id) s.challenges)) [
    | inl missing ↦ rw (missing, mark_used) tt
    | inr (c, found) ↦
        let same = find_sound (has_id id) s.challenges c found in
        rw (found, mark_used)
          (record {
            row = used now c;
            found =
                find-marked now id id s.challenges c found
                ∙ ap (λ b. some (if b then used now c else c)) same;
            is_used = refl;
          })
  ];
}

-- The end of a login: the challenge is marked, and the user is that of the credential.
finished :
    (now : ℕ) (dto : BiometricVerifyRequest) (user key : ℕ) (s : Devices) {s' : Devices}
    → (mark_used now dto.challenge_id >> (touch_last_used now dto.device_id >> pure key)) s
      ≡ (ok user, s')
    → (key ≡ user) × IsUsed dto.challenge_id s'
finished now dto user key s {s'} run =
    let (a, middle, marked, rest) = bind-run (mark_used now dto.challenge_id) _ run in
    let (b, end, touched, last) = bind-run (touch_last_used now dto.device_id) _ rest in
    let (same, kept) = pure-run key last in
    (
      same,
      Triple-run (λ _. IsUsed dto.challenge_id) (λ _. Unit {0})
          (Triple-bind (λ _. IsUsed dto.challenge_id) (mark_used now dto.challenge_id)
            (λ a. touch_last_used now dto.device_id >> pure key)
            (mark_used-IsUsed now dto.challenge_id)
            (λ a. Triple-keep (search (keeps_rules, touch_last_used-IsUsed))))
          tt run,
    )

pub verify_challenge-IsEntitled :
    (verify : String → String → String → Result Bool) (now : ℕ) (dto : BiometricVerifyRequest)
    (s : Devices) {user : ℕ} {s' : Devices}
    → verify_challenge verify now dto s ≡ (ok user, s')
    → IsEntitled verify now dto user s × IsUsed dto.challenge_id s'
unfolding verify_challenge find_by_id find_active_by_device_id
verify_challenge-IsEntitled verify now dto s {user} run =
    let (row, found, run1) = or_throw-run _ _ _ (gets-run _ _ run) in
    let (unused, run2) = throw_if-run _ _ _ run1 in
    let (in_time, run3) = throw_if-run _ _ _ run2 in
    let (credential, active, run4) = or_throw-run _ _ _ (gets-run _ _ run3) in
    let (valid, s1, checked, run5) = bind-run _ _ run4 in
    let (answer, kept) = lift-run _ s checked in
    let (signed, run6) = throw_if-run _ _ _ run5 in
    let (of_user, is_used) = finished now dto user credential.user_id s1 run6 in
    (
      record {
        row = row;
        credential = credential;
        found = found;
        unused = unused;
        in_time = in_time;
        active = active;
        signed = answer ∙ ap ok (not-false valid signed);
        of_user = of_user;
      },
      is_used,
    )

-- The requests of the biometric login, in any order, with any clock and any drawn texts.
pub data Steps (verify : String → String → String → Result Bool) : Devices → Devices → Type 0 where
  start : {s : Devices} → Steps verify s s
  enrolled :
      {s t : Devices} (user_id : ℕ) (dto : BiometricEnrollRequest)
      → Steps verify s t
      → Steps verify s (enroll user_id dto t).1
  challenged :
      {s t : Devices} (now : ℕ) (id challenge device : String)
      → Steps verify s t
      → Steps verify s (create_challenge now id challenge device t).1
  verified :
      {s t : Devices} (now : ℕ) (dto : BiometricVerifyRequest)
      → Steps verify s t
      → Steps verify s (verify_challenge verify now dto t).1

module _ (verify : String → String → String → Result Bool) (id : String) where
  Steps-IsUsed : (s t : Devices) → Steps verify s t → IsUsed id s → IsUsed id t
  Steps-IsUsed s _ start h = h
  Steps-IsUsed s _ (enrolled {t} user_id dto steps) h =
      (enroll-IsUsed id user_id dto).at t (Steps-IsUsed s t steps h)
  Steps-IsUsed s _ (challenged {t} now new challenge device steps) h =
      (create_challenge-IsUsed id now new challenge device).at t (Steps-IsUsed s t steps h)
  Steps-IsUsed s _ (verified {t} now dto steps) h =
      (verify_challenge-IsUsed id verify now dto).at t (Steps-IsUsed s t steps h)

of_device-row : (device : String) (c r : Challenge) → of_device device (some c) ≡ some r → c ≡ r
of_device-row device c r h = elim (Bool-cases (str_eq c.device_id device)) [
  | inl same ↦ cc (same, h)
  | inr other ↦ cc (other, h)
]

-- No challenge that was used logs anybody in.
used_refused :
    (verify : String → String → String → Result Bool) (now : ℕ) (dto : BiometricVerifyRequest)
    (s s' : Devices) (user : ℕ)
    → IsUsed dto.challenge_id s
    → verify_challenge verify now dto s ≢ (ok user, s')
used_refused verify now dto s s' user h run =
    let (entitled, again) = verify_challenge-IsEntitled verify now dto s run in
    let same =
      of_device-row dto.device_id h.row entitled.row
        (sym (ap (of_device dto.device_id) h.found) ∙ entitled.found) in
    cc (h.is_used, entitled.unused, same)

-- A login is by an unused, unexpired challenge of the device, signed with the key of the device's
-- active credential, and as that credential's user.
pub verify_challenge-login :
    (verify : String → String → String → Result Bool) (now : ℕ) (dto : BiometricVerifyRequest)
    (s : Devices) {user : ℕ} {s' : Devices}
    → verify_challenge verify now dto s ≡ (ok user, s')
    → IsEntitled verify now dto user s
verify_challenge-login verify now dto s run = (verify_challenge-IsEntitled verify now dto s run).0

-- A challenge logs in at most once: after a login, and whatever enrolments, new challenges and
-- attempts follow in any order, no request with the same challenge is a login, on any device, with
-- any signature and at any time.
pub verify_challenge-once :
    (verify : String → String → String → Result Bool) (now later : ℕ)
    (dto again : BiometricVerifyRequest) (s : Devices) {user : ℕ} {s' : Devices} (t t' : Devices)
    (other : ℕ)
    → verify_challenge verify now dto s ≡ (ok user, s')
    → Steps verify s' t
    → again.challenge_id ≡ dto.challenge_id
    → verify_challenge verify later again t ≢ (ok other, t')
verify_challenge-once verify now later dto again s {user} {s'} t t' other run steps same =
    used_refused verify later again t t' other (
      rw same (
        Steps-IsUsed verify dto.challenge_id s' t steps
          (verify_challenge-IsEntitled verify now dto s run).1))
