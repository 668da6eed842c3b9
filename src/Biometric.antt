-- ===== src/Biometric.antt =====
-- src/services/auth.biometric.service.ts with src/repositories/loginChallenges.repository.ts and
-- src/repositories/deviceCredentials.repository.ts: login by a signature of an enrolled device.
pub mod Used
pub mod Login
mod Tests
use banking_mobile_backend.Prelude.{
  ℕ, String, Bool, not, ◌&&◌, ◌+◌, Option, none, some, List, [], ◌∷◌, ◌++◌, ltb, str_eq,
  if◌then◌else◌, is_some, or_else, find, update_where, any, database, not_found, unauthorized,
  Result, ok, err, Action, ◌>>=◌, ◌>>◌, pure, gets, or_throw, lift, throw_if,
}

-- A row of `LoginChallenges`. Times are milliseconds; the column of `expires_at` keeps whole seconds,
-- so in the database the expiry can lie up to a second beside the one kept here.
pub record Challenge : Type 0 where
  pub id : String
  pub device_id : String
  pub challenge : String
  pub expires_at : ℕ
  pub used_at : Option ℕ

-- A row of `DeviceCredentials`.
pub record Credential : Type 0 where
  pub user_id : ℕ
  pub device_id : String
  pub public_key_json : String
  pub algorithm : String
  pub revoked_at : Option ℕ
  pub last_used_at : Option ℕ

pub record Devices : Type 0 where
  pub challenges : List Challenge
  pub credentials : List Credential

abbrev pub has_id : String → Challenge → Bool
has_id id c = str_eq c.id id

abbrev pub has_device : String → Credential → Bool
has_device device c = str_eq c.device_id device

abbrev pub is_active : String → Credential → Bool
is_active device c = has_device device c && not (is_some c.revoked_at)

unfoldable pub create_login_challenge : Challenge → Action Devices Challenge
unfolding any
create_login_challenge c s =
    if any (has_id c.id) s.challenges
    then (err (database "Unique constraint failed"), s)
    else (ok c, record s { challenges = s.challenges ++ c ∷ [] })

unfoldable pub find_by_id : String → Action Devices (Option Challenge)
find_by_id id = gets (λ s. find (has_id id) s.challenges)

abbrev pub used : ℕ → Challenge → Challenge
used now c = record c { used_at = some now }

unfoldable pub mark_used : ℕ → String → Action Devices (Unit {0})
unfolding find update_where
mark_used now id s = elim (find (has_id id) s.challenges) [
  | none ↦ (err (database "Record to update not found."), s)
  | some c ↦ (ok tt, record s { challenges = update_where (has_id id) (used now) s.challenges })
]

-- `upsert` on the unique `device_id`: a revoked credential becomes active again.
unfoldable pub upsert_credential : Credential → Action Devices (Unit {0})
unfolding find update_where
upsert_credential c s = elim (find (has_device c.device_id) s.credentials) [
  | none ↦ (ok tt, record s { credentials = s.credentials ++ c ∷ [] })
  | some old ↦
      let change = λ (x : Credential). record x {
        user_id = c.user_id;
        public_key_json = c.public_key_json;
        algorithm = c.algorithm;
        revoked_at = none;
      } in
      (ok tt, record s { credentials = update_where (has_device c.device_id) change s.credentials })
]

unfoldable pub find_active_by_device_id : String → Action Devices (Option Credential)
find_active_by_device_id device = gets (λ s. find (is_active device) s.credentials)

unfoldable pub touch_last_used : ℕ → String → Action Devices (Unit {0})
unfolding find update_where
touch_last_used now device s = elim (find (has_device device) s.credentials) [
  | none ↦ (err (database "Record to update not found."), s)
  | some c ↦
      let touch = λ (x : Credential). record x { last_used_at = some now } in
      (ok tt, record s { credentials = update_where (has_device device) touch s.credentials })
]

pub record BiometricEnrollRequest : Type 0 where
  pub device_id : String
  pub public_key : String
  pub algorithm : Option String

unfoldable pub enroll : (user_id : ℕ) → BiometricEnrollRequest → Action Devices (Unit {0})
enroll user_id dto = upsert_credential (record {
  user_id = user_id;
  device_id = dto.device_id;
  public_key_json = dto.public_key;
  algorithm = or_else dto.algorithm "ES256";
  revoked_at = none;
  last_used_at = none;
})

pub record BiometricChallengeResponse : Type 0 where
  pub challenge_id : String
  pub challenge : String
  pub expires_in : ℕ
  pub algorithm : String

-- `id` and `challenge` are the ULID and the random text that are drawn, `now` is the clock.
unfoldable pub create_challenge :
    (now : ℕ) (id challenge : String) (device : String) → Action Devices BiometricChallengeResponse
create_challenge now id challenge device = do
  found ← find_active_by_device_id device
  cred ← or_throw found (not_found "Device not enrolled")
  create_login_challenge (record {
    id = id;
    device_id = device;
    challenge = challenge;
    expires_at = now + 90000;
    used_at = none;
  })
  pure (record {
    challenge_id = id;
    challenge = challenge;
    expires_in = 90;
    algorithm = cred.algorithm;
  })

pub record BiometricVerifyRequest : Type 0 where
  pub challenge_id : String
  pub device_id : String
  pub signature : String

-- `!ch || ch.device_id !== dto.deviceId`
abbrev pub of_device : String → Option Challenge → Option Challenge
of_device device none = none
of_device device (some c) = if str_eq c.device_id device then some c else none

-- `verify` is `verifyEs256JwkSignature`: the key, the message and the signature; it throws when the
-- key is not a valid JWK.
module _ (verify : String → String → String → Result Bool) where
  unfoldable pub verify_challenge : (now : ℕ) → BiometricVerifyRequest → Action Devices ℕ
  verify_challenge now dto = do
    row ← find_by_id dto.challenge_id
    ch ← or_throw (of_device dto.device_id row) (unauthorized "Invalid challenge")
    throw_if (is_some ch.used_at) (unauthorized "Challenge already used")
    throw_if (ltb ch.expires_at now) (unauthorized "Challenge expired")
    found ← find_active_by_device_id dto.device_id
    cred ← or_throw found (unauthorized "Device not enrolled")
    valid ← lift (verify cred.public_key_json ch.challenge dto.signature)
    throw_if (not valid) (unauthorized "Invalid signature")
    mark_used now dto.challenge_id
    touch_last_used now dto.device_id
    pure cred.user_id
