-- ===== src/Accounts/Tests.antt =====
-- The theorems on accounts at one user.
use banking_mobile_backend.Prelude.{
  ◌≡◌, refl, true, false, none, some, [], ◌∷◌, ok, err, unauthorized, find, update_where, any,
  all_of, try_catch, ◌>>=◌,
}
use banking_mobile_backend.Prelude.Unique.{update_row}
use banking_mobile_backend.Accounts.{
  Account, AccountStore, is_email, find_by_email, find_account, find_auth_state, update_user,
  ask_account, upsert_auth_state, upsert_profile, update_auth_state, update_profile,
}
use banking_mobile_backend.Accounts.Settings.{change_password}
use banking_mobile_backend.Accounts.Login.{
  LoginHost, login_by_email_password, build_jwt_token, get_backoffice_jwt_data, record_refresh,
  build_successful_login_response,
}
use banking_mobile_backend.Accounts.Register.{
  RegisterHost, BackofficeAccount, register_by_email, provision,
}
use banking_mobile_backend.Accounts.Password.{change_password-replaces}
use banking_mobile_backend.Accounts.Authenticated.{
  IsAuthenticated, login_by_email_password-IsAuthenticated,
}
use banking_mobile_backend.Accounts.Registered.{register_by_email-once}

abbrev ana : Account
ana = record {
  id = 1;
  email = "ana@x";
  password = "old";
  alias = none;
  complete_name = some "Ana";
  last_login = none;
}

abbrev store : AccountStore
store = record {
  users = ana ∷ [];
  auth_states = [];
  profiles = [];
  devices = record { challenges = []; credentials = [] };
  calls = [];
}

abbrev login_host : LoginHost
login_host = record {
  refresh = λ calls request. ok (record { oauth_token = "t"; expiration = "later" });
  sign = λ claims. claims.email;
  verify = λ key message signature. ok true;
  now = 5;
}

abbrev account : BackofficeAccount
account = record {
  id = 10;
  ewallet_id = 11;
  oauth_token = "t";
  private_key = "k";
  refresh_token = "r";
}

abbrev register_host : RegisterHost
register_host = record {
  create_account = λ calls request. ok account;
  assign_program = λ calls customer. ok tt;
  hash = λ password. password;
  device_id = "d";
}

abbrev changed : AccountStore
changed = (change_password 1 "old" "new" store).1

abbrev registered : AccountStore
registered = (register_by_email register_host "ana@x" store).1

abbrev logged_in : AccountStore
logged_in = (login_by_email_password login_host "ana@x" "old" registered).1

ana_found : find (is_email "ana@x") store.users ≡ some ana
unfolding find
ana_found = refl

change_run : change_password 1 "old" "new" store ≡ (ok 1, changed)
unfolding change_password find_account update_user update_row find update_where any ◌>>=◌
change_run = refl

register_run :
    register_by_email register_host "ana@x" store
    ≡ (ok (record { email = "ana@x"; created = true }), registered)
unfolding register_by_email provision find_by_email find_auth_state ask_account upsert_auth_state
    upsert_profile find update_where ◌>>=◌
register_run = refl

change_password-replaces_example :
    ((login_by_email_password login_host "ana@x" "old" changed).0
      ≡ err (unauthorized "Invalid credentials"))
    × (login_by_email_password login_host "ana@x" "new" changed
        ≡ build_successful_login_response login_host "ana@x" 1 changed)
change_password-replaces_example =
    change_password-replaces login_host ana "old" "new" store ana_found change_run

register_by_email-once_example :
    register_by_email register_host "ana@x" registered
    ≡ (ok (record { email = "ana@x"; created = false }), registered)
register_by_email-once_example =
    register_by_email-once register_host register_host "ana@x" store register_run

login_run : login_by_email_password login_host "ana@x" "old" registered ≡ (ok "ana@x", logged_in)
unfolding register_by_email provision find_by_email find_auth_state ask_account upsert_auth_state
    upsert_profile login_by_email_password build_jwt_token get_backoffice_jwt_data record_refresh
    build_successful_login_response update_user update_row update_auth_state update_profile all_of
    try_catch find update_where any ◌>>=◌
login_run = refl

login_by_email_password-IsAuthenticated_example :
    IsAuthenticated login_host "ana@x" "old" registered "ana@x"
login_by_email_password-IsAuthenticated_example =
    login_by_email_password-IsAuthenticated login_host "ana@x" "old" registered login_run
