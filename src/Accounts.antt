-- ===== src/Accounts.antt =====
-- src/repositories/user.repository.ts and src/repositories/backoffice.repository.ts: the accounts of
-- the users, their profiles at the backoffice and the state of their logins there.
pub mod Login
pub mod Register
pub mod Settings
pub mod Password
pub mod Authenticated
pub mod Registered
mod Tests
use banking_mobile_backend.Prelude.{
  ℕ, String, suc, Bool, true, false, not, ◌&&◌, ◌||◌, Option, none, some, List, [], ◌∷◌, ◌++◌, ◌==◌,
  str_eq, if◌then◌else◌, is_some, find, update_where, any, database, Result, ok, err, Action, ◌>>=◌,
  ◌>>◌, pure, gets,
}
use banking_mobile_backend.Prelude.Unique.{update_row}
use banking_mobile_backend.Biometric.{Devices}

-- The columns of `Users` that the services below read.
pub record Account : Type 0 where
  pub id : ℕ
  pub email : String
  pub password : String
  pub alias : Option String
  pub complete_name : Option String
  pub last_login : Option ℕ

pub record AuthState : Type 0 where
  pub user_id : ℕ
  pub device_id : Option String
  pub private_key : Option String
  pub refresh_token : Option String
  pub oauth_token : Option String
  pub external_customer_id : Option ℕ

pub record CustomerProfile : Type 0 where
  pub user_id : ℕ
  pub external_customer_id : ℕ
  pub ewallet_id : ℕ
  pub oauth_token : String
  pub private_key : String
  pub refresh_token : String

pub record RefreshRequest : Type 0 where
  pub refresh_token : String
  pub device_id : String

-- `hash` is the hashed password.
pub record AccountRequest : Type 0 where
  pub device_id : String
  pub email : String
  pub hash : String

pub data AccountCall : Type 0 where
  refresh : RefreshRequest → AccountCall
  create_account : AccountRequest → AccountCall
  assign_program : (customer : ℕ) → AccountCall

pub record AccountStore : Type 0 where
  pub users : List Account
  pub auth_states : List AuthState
  pub profiles : List CustomerProfile
  pub devices : Devices
  pub calls : List AccountCall

unfoldable pub ask_account :
    {A : Type 0} → AccountCall → (List AccountCall → Result A) → Action AccountStore A
ask_account call answer s = (answer s.calls, record s { calls = call ∷ s.calls })

-- An operation on the challenges and credentials alone.
unfoldable pub in_devices : {A : Type 0} → Action Devices A → Action AccountStore A
in_devices m s = let (r, devices) = m s.devices in (r, record s { devices = devices })

abbrev pub is_email : String → Account → Bool
is_email email u = str_eq u.email email

abbrev pub is_id : ℕ → Account → Bool
is_id id u = u.id == id

abbrev pub is_alias : String → Account → Bool
is_alias alias u = elim u.alias [ none ↦ false | some a ↦ str_eq a alias ]

abbrev pub same_text : Option String → Option String → Bool
same_text (some a) (some b) = str_eq a b
same_text _ _ = false

-- The unique columns of a user.
abbrev pub account_clash : Account → Account → Bool
account_clash u v = str_eq u.email v.email || same_text u.alias v.alias

abbrev pub state_of : ℕ → AuthState → Bool
state_of user a = a.user_id == user

abbrev pub profile_of : ℕ → CustomerProfile → Bool
profile_of user p = p.user_id == user

unfoldable pub find_by_email : String → Action AccountStore (Option Account)
unfolding find
find_by_email email = gets (λ s. find (is_email email) s.users)

unfoldable pub find_account : ℕ → Action AccountStore (Option Account)
unfolding find
find_account id = gets (λ s. find (is_id id) s.users)

unfoldable pub find_by_alias : String → Action AccountStore (Option Account)
unfolding find
find_by_alias alias = gets (λ s. find (is_alias alias) s.users)

abbrev pub with_users : AccountStore → Result (List Account) → Result (Unit {0}) × AccountStore
with_users s (ok users) = (ok tt, record s { users = users })
with_users s (err e) = (err e, s)

unfoldable pub update_user : ℕ → (Account → Account) → Action AccountStore (Unit {0})
unfolding update_row
update_user id change s = with_users s (update_row (λ u. u.id) account_clash id change s.users)

unfoldable pub find_auth_state : ℕ → Action AccountStore (Option AuthState)
unfolding find
find_auth_state user = gets (λ s. find (state_of user) s.auth_states)

-- `upsert({ where: { userId } })`
unfoldable pub upsert_auth_state : AuthState → Action AccountStore (Unit {0})
unfolding find update_where
upsert_auth_state a s = (
  ok tt,
  record s {
    auth_states =
        if is_some (find (state_of a.user_id) s.auth_states)
        then update_where (state_of a.user_id) (λ _. a) s.auth_states
        else s.auth_states ++ (a ∷ []);
  },
)

unfoldable pub upsert_profile : CustomerProfile → Action AccountStore (Unit {0})
unfolding find update_where
upsert_profile p s = (
  ok tt,
  record s {
    profiles =
        if is_some (find (profile_of p.user_id) s.profiles)
        then update_where (profile_of p.user_id) (λ _. p) s.profiles
        else s.profiles ++ (p ∷ []);
  },
)

unfoldable pub update_auth_state : ℕ → (AuthState → AuthState) → Action AccountStore (Unit {0})
unfolding find update_where
update_auth_state user change s = elim (find (state_of user) s.auth_states) [
  | none ↦ (err (database "Record to update not found."), s)
  | some a ↦ (ok tt, record s { auth_states = update_where (state_of user) change s.auth_states })
]

unfoldable pub update_profile :
    ℕ → (CustomerProfile → CustomerProfile) → Action AccountStore (Unit {0})
unfolding find update_where
update_profile user change s = elim (find (profile_of user) s.profiles) [
  | none ↦ (err (database "Record to update not found."), s)
  | some a ↦ (ok tt, record s { profiles = update_where (profile_of user) change s.profiles })
]
