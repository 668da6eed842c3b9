-- ===== src/Push.antt =====
-- src/services/push.service.ts, src/services/notification.service.ts and
-- src/repositories/pushDeviceToken.repository.ts: the push tokens of the users' devices, and the
-- messages to all tokens of a user.
pub mod Tokens
pub mod Held
pub mod Delivered
pub mod Removed
mod Tests
use banking_mobile_backend.Prelude.{
  ℕ, String, suc, ◌+◌, Bool, true, false, not, ◌&&◌, ◌||◌, Option, none, some, List, [], ◌∷◌, ◌++◌,
  map, ◌==◌, str_eq, if◌then◌else◌, first_some, truthy, length, find, update_where, select, any,
  database, Result, ok, err, Action, ◌>>=◌, ◌>>◌, pure, gets, lift,
}
use banking_mobile_backend.Prelude.Unique.{update_row, insert_row}

pub data Platform : Type 0 where
  android ios : Platform

-- A row of `push_device_tokens`.
pub record DeviceToken : Type 0 where
  pub id : ℕ
  pub user_id : ℕ
  pub device_id : Option String
  pub fcm_token : String
  pub platform : Platform
  pub is_active : Bool
  pub updated_at : ℕ

pub record RegisterDevicePayload : Type 0 where
  pub fcm_token : String
  pub platform : Platform
  pub device_id : Option String

-- `sent` holds the tokens to which a message was tried, the newest first.
pub record PushStore : Type 0 where
  pub rows : List DeviceToken
  pub next_id : ℕ
  pub sent : List String

-- The answer of Firebase: an error carries a code, or none.
pub data Delivery : Type 0 where
  delivered : Delivery
  undelivered : (code : Option String) → Delivery

pub record NotificationSendResult : Type 0 where
  pub tokens_found : ℕ
  pub tokens_sent : ℕ
  pub tokens_deactivated : ℕ

abbrev pub same_device : Option String → Option String → Bool
same_device (some d) (some e) = str_eq d e
same_device _ _ = false

-- The unique columns: `fcm_token`, and `user_id` with `device_id`.
abbrev pub clash : DeviceToken → DeviceToken → Bool
clash r q =
    str_eq r.fcm_token q.fcm_token || r.user_id == q.user_id && same_device r.device_id q.device_id

abbrev pub of_token : String → DeviceToken → Bool
of_token token r = str_eq r.fcm_token token

abbrev pub of_device : String → DeviceToken → Bool
of_device device r = same_device r.device_id (some device)

abbrev pub is_active_of : ℕ → DeviceToken → Bool
is_active_of user r = r.user_id == user && r.is_active

unfoldable pub find_active_tokens_by_user_id : ℕ → Action PushStore (List DeviceToken)
find_active_tokens_by_user_id user = gets (λ s. select (is_active_of user) s.rows)

abbrev pub with_rows : PushStore → Result (List DeviceToken) → Result (Unit {0}) × PushStore
with_rows s (ok rows) = (ok tt, record s { rows = rows })
with_rows s (err e) = (err e, s)

unfoldable pub update_token : ℕ → (DeviceToken → DeviceToken) → Action PushStore (Unit {0})
update_token id change s = with_rows s (update_row (λ r. r.id) clash id change s.rows)

abbrev with_new_row : PushStore → Result (List DeviceToken) → Result (Unit {0}) × PushStore
with_new_row s (ok rows) = (ok tt, record s { rows = rows; next_id = suc s.next_id })
with_new_row s (err e) = (err e, s)

unfoldable pub create_token : (ℕ → DeviceToken) → Action PushStore (Unit {0})
create_token row s = with_new_row s (insert_row (λ r. r.id) clash (row s.next_id) s.rows)

abbrev pub deactivated : DeviceToken → DeviceToken
deactivated r = record r { is_active = false }

-- `update({ where: { fcm_token } })`
unfoldable pub deactivate_token : String → Action PushStore (Unit {0})
unfolding find update_where
deactivate_token token s = elim (find (of_token token) s.rows) [
  | none ↦ (err (database "Record to update not found."), s)
  | some r ↦ (ok tt, record s { rows = update_where (of_token token) deactivated s.rows })
]

module _ (now user : ℕ) (token : String) (platform : Platform) (device : Option String) where
  abbrev pub rotated : DeviceToken → DeviceToken
  rotated r = record r { fcm_token = token; user_id = user; is_active = true; updated_at = now }

  abbrev pub reassigned : DeviceToken → DeviceToken
  reassigned r = record r {
    user_id = user;
    device_id = first_some (truthy device) r.device_id;
    is_active = true;
    updated_at = now;
  }

  abbrev pub new_token : ℕ → DeviceToken
  new_token id = record {
    id = id;
    user_id = user;
    device_id = device;
    fcm_token = token;
    platform = platform;
    is_active = true;
    updated_at = now;
  }

  abbrev pub upsert_found : Option DeviceToken → Action PushStore (Unit {0})
  upsert_found (some r) = update_token r.id reassigned
  upsert_found none = create_token new_token

  unfoldable pub upsert_by_token : Action PushStore (Unit {0})
  upsert_by_token = do found ← gets (λ s. find (of_token token) s.rows); upsert_found found

  abbrev pub upsert_existing : Option DeviceToken → Action PushStore (Unit {0})
  upsert_existing (some r) = update_token r.id rotated
  upsert_existing none = upsert_by_token

  abbrev pub find_by_device : Option String → List DeviceToken → Option DeviceToken
  find_by_device none rows = none
  find_by_device (some device) rows = find (of_device device) rows

  unfoldable pub upsert_device_token : Action PushStore (Unit {0})
  upsert_device_token = do
    existing ← gets (λ s. find_by_device (truthy device) s.rows)
    upsert_existing existing

unfoldable pub register_device :
    (now user : ℕ) → RegisterDevicePayload → Action PushStore (Unit {0})
register_device now user payload =
    upsert_device_token now user payload.fcm_token payload.platform payload.device_id

abbrev pub is_invalid_code : String → Bool
is_invalid_code code =
    str_eq code "messaging/invalid-registration-token"
    || str_eq code "messaging/registration-token-not-registered"

abbrev pub is_invalid : Delivery → Bool
is_invalid (undelivered (some code)) = is_invalid_code code
is_invalid _ = false

-- `firebase` answers a message to a token, by the messages tried so far.
module _ (firebase : List String → String → Delivery) where
  unfoldable pub send : String → Action PushStore Delivery
  send token s = (ok (firebase s.sent token), record s { sent = token ∷ s.sent })

  -- The counters of sent messages and of deactivated tokens, after a token was tried.
  abbrev pub count_sent : String → Delivery → ℕ × ℕ → Action PushStore (ℕ × ℕ)
  count_sent token delivered (sent, off) = pure (suc sent, off)
  count_sent token (undelivered none) counts = pure counts
  count_sent token (undelivered (some code)) (sent, off) =
      if is_invalid_code code
      then deactivate_token token >> pure (sent, suc off)
      else pure (sent, off)

  unfoldable pub send_to_tokens : List DeviceToken → ℕ × ℕ → Action PushStore (ℕ × ℕ)
  send_to_tokens [] counts = pure counts
  send_to_tokens (r ∷ rs) counts = do
    delivery ← send r.fcm_token
    after ← count_sent r.fcm_token delivery counts
    send_to_tokens rs after

  -- No active token is no special case: the counters are 0 then.
  unfoldable pub send_to_user : ℕ → Action PushStore NotificationSendResult
  send_to_user user = do
    tokens ← find_active_tokens_by_user_id user
    (sent, off) ← send_to_tokens tokens (0, 0)
    pure (record { tokens_found = length tokens; tokens_sent = sent; tokens_deactivated = off })
