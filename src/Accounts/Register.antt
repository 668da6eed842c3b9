-- ===== src/Accounts/Register.antt =====
-- src/services/auth.service.ts: the registration of a user at the backoffice.
use banking_mobile_backend.Prelude.{
  ℕ, String, Bool, true, false, Option, none, some, List, not_found, Result, Action, ◌>>=◌, ◌>>◌,
  pure, or_throw,
}
use banking_mobile_backend.Accounts.{
  Account, AuthState, CustomerProfile, AccountRequest, AccountCall, AccountStore, ask_account,
  find_by_email, find_auth_state, upsert_auth_state, upsert_profile,
}

-- What the profile and the login state take from an answer; the address and the other columns of
-- the profile are copied too and not modelled.
pub record BackofficeAccount : Type 0 where
  pub id : ℕ
  pub ewallet_id : ℕ
  pub oauth_token : String
  pub private_key : String
  pub refresh_token : String

pub record RegisterHost : Type 0 where
  pub create_account : List AccountCall → AccountRequest → Result BackofficeAccount
  pub assign_program : List AccountCall → ℕ → Result (Unit {0})
  pub hash : String → String
  pub device_id : String

pub record Registration : Type 0 where
  pub email : String
  pub created : Bool

module _ (host : RegisterHost) where
  abbrev pub new_profile : ℕ → BackofficeAccount → CustomerProfile
  new_profile user a = record {
    user_id = user;
    external_customer_id = a.id;
    ewallet_id = a.ewallet_id;
    oauth_token = a.oauth_token;
    private_key = a.private_key;
    refresh_token = a.refresh_token;
  }

  abbrev pub new_auth_state : ℕ → BackofficeAccount → AuthState
  new_auth_state user a = record {
    user_id = user;
    device_id = some host.device_id;
    private_key = some a.private_key;
    refresh_token = some a.refresh_token;
    oauth_token = some a.oauth_token;
    external_customer_id = some a.id;
  }

  unfoldable pub provision : Account → Action AccountStore Registration
  provision user = do
    let request : AccountRequest = record {
      device_id = host.device_id;
      email = user.email;
      hash = host.hash user.password;
    }
    account ←
        ask_account (AccountCall.create_account request)
          (λ calls. host.create_account calls request)
    upsert_profile (new_profile user.id account)
    upsert_auth_state (new_auth_state user.id account)
    ask_account (AccountCall.assign_program account.id)
        (λ calls. host.assign_program calls account.id)
    pure (record { email = user.email; created = true })

  abbrev pub provision_new : Account → Option AuthState → Action AccountStore Registration
  provision_new user (some state) = pure (record { email = user.email; created = false })
  provision_new user none = provision user

  unfoldable pub register_by_email : String → Action AccountStore Registration
  register_by_email email = do
    found ← find_by_email email
    user ← or_throw found (not_found "User not found. Complete registration first.")
    state ← find_auth_state user.id
    provision_new user state
