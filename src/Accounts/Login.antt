-- ===== src/Accounts/Login.antt =====
-- src/services/auth.service.ts: the login by password and by a device, and its token.
use banking_mobile_backend.Prelude.{
  ℕ, String, Bool, not, ◌&&◌, Option, some, List, str_eq, or_else, truthy, is_some, unauthorized,
  not_found, Result, Action, ◌>>=◌, ◌>>◌, pure, or_throw, throw_if, try_catch, all_of,
}
use banking_mobile_backend.Biometric.{BiometricVerifyRequest, verify_challenge}
use banking_mobile_backend.Accounts.{
  Account, AuthState, RefreshRequest, AccountCall, AccountStore, ask_account, in_devices,
  find_by_email, find_account, update_user, find_auth_state, update_auth_state, update_profile,
}

pub record RefreshResponse : Type 0 where
  pub oauth_token : String
  pub expiration : String

pub record BackofficeJwtData : Type 0 where
  pub customer_oauth_token : String
  pub expiration : String
  pub customer_refresh_token : String
  pub customer_id : ℕ

pub record Claims : Type 0 where
  pub user_id : ℕ
  pub email : String
  pub username : Option String
  pub backoffice : BackofficeJwtData

-- The answers of the backoffice, the signature of a token, the check of a device's signature, and
-- the time.
pub record LoginHost : Type 0 where
  pub refresh : List AccountCall → RefreshRequest → Result RefreshResponse
  pub sign : Claims → String
  pub verify : String → String → String → Result Bool
  pub now : ℕ

module _ (host : LoginHost) where
  -- The two updates after a refresh: an error of the second is logged only.
  unfoldable pub record_refresh : ℕ → RefreshResponse → Action AccountStore (Unit {0} × Unit {0})
  record_refresh user response =
      all_of (update_auth_state user (λ a. record a { oauth_token = some response.oauth_token })) (
        try_catch (update_profile user (λ p. record p { oauth_token = response.oauth_token }))
          (λ e. pure tt))

  unfoldable pub get_backoffice_jwt_data :
      Account → AuthState → Action AccountStore BackofficeJwtData
  get_backoffice_jwt_data user auth = do
    throw_if (not (is_some (truthy auth.refresh_token) && is_some (truthy auth.device_id)))
        (not_found "Backoffice authentication state is incomplete")
    let refresh_token = or_else auth.refresh_token ""
    let request : RefreshRequest = record {
      refresh_token = refresh_token;
      device_id = or_else auth.device_id "";
    }
    response ← ask_account (AccountCall.refresh request) (λ calls. host.refresh calls request)
    record_refresh user.id response
    pure (record {
      customer_oauth_token = response.oauth_token;
      expiration = response.expiration;
      customer_refresh_token = refresh_token;
      customer_id = or_else auth.external_customer_id 0;
    })

  unfoldable pub build_jwt_token : String → Action AccountStore String
  build_jwt_token email = do
    found ← find_by_email email
    user ← or_throw found (not_found "User not found")
    state ← find_auth_state user.id
    auth ← or_throw state (not_found "Authentication configuration not found")
    backoffice ← get_backoffice_jwt_data user auth
    pure (
        host.sign (record {
          user_id = user.id;
          email = user.email;
          username = user.complete_name;
          backoffice = backoffice;
        }))

  unfoldable pub build_successful_login_response : String → ℕ → Action AccountStore String
  build_successful_login_response email user = do
    token ← build_jwt_token email
    update_user user (λ u. record u { last_login = some host.now })
    pure token

  unfoldable pub login_by_email_password : (email password : String) → Action AccountStore String
  login_by_email_password email password = do
    found ← find_by_email email
    user ← or_throw found (unauthorized "Invalid credentials")
    throw_if (not (str_eq password user.password)) (unauthorized "Invalid credentials")
    build_successful_login_response user.email user.id

  unfoldable pub login_by_biometric : BiometricVerifyRequest → Action AccountStore String
  login_by_biometric request = do
    user ← in_devices (verify_challenge host.verify host.now request)
    found ← find_account user
    u ← or_throw found (not_found "User not found")
    build_successful_login_response u.email u.id
