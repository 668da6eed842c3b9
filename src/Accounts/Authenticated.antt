-- ===== src/Accounts/Authenticated.antt =====
-- Who is logged in by a password, and as whom.
use banking_mobile_backend.Prelude.{
  String, ◌≡◌, sym, subst, Bool, true, false, not, some, eq_iff, find, find_sound, arith, ok,
}
use banking_mobile_backend.Prelude.Runs.{gets-run, or_throw-run, bind-run, throw_if-run, pure-run}
use banking_mobile_backend.Accounts.{
  Account, AuthState, AccountStore, is_email, state_of, find_by_email, find_auth_state,
}
use banking_mobile_backend.Accounts.Login.{
  LoginHost, BackofficeJwtData, build_jwt_token, build_successful_login_response,
  login_by_email_password,
}

-- The token of a user: it is signed over the user's own number and address.
pub record IsTokenOf (host : LoginHost) (u : Account) (s : AccountStore) (token : String)
    : Type 0 where
  pub state : AuthState
  pub known : find (state_of u.id) s.auth_states ≡ some state
  pub backoffice : BackofficeJwtData
  pub signed :
      token
      ≡ host.sign (record {
        user_id = u.id;
        email = u.email;
        username = u.complete_name;
        backoffice = backoffice;
      })

pub record IsAuthenticated (host : LoginHost) (email password : String) (s : AccountStore)
    (token : String) : Type 0 where
  pub user : Account
  pub found : find (is_email email) s.users ≡ some user
  pub password_right : password ≡ user.password
  pub token_of : IsTokenOf host user s token

not-not : (b : Bool) → not b ≡ false → b ≡ true
not-not b h = ground arith

module _ (host : LoginHost) where
  build_jwt_token-IsTokenOf :
      (u : Account) (s : AccountStore) {token : String} {s' : AccountStore}
      → find (is_email u.email) s.users ≡ some u
      → build_jwt_token host u.email s ≡ (ok token, s')
      → IsTokenOf host u s token
  unfolding build_jwt_token find_by_email find_auth_state
  build_jwt_token-IsTokenOf u s {token} found run =
      let (v, again, run1) = or_throw-run _ _ _ (gets-run _ _ run) in
      let (state, known, run2) = or_throw-run _ _ _ (gets-run _ _ run1) in
      let (backoffice, s1, refreshed, run3) = bind-run _ _ run2 in
      let (signed, kept) = pure-run _ run3 in
      let same : v ≡ u = cc (found, again) in
      subst (λ w. IsTokenOf host w s token) same
        (record { state = state; known = known; backoffice = backoffice; signed = sym signed })

  -- A login by password that returns is for the user with the address, whose stored password is the
  -- one given, and its token is signed over that user's number and address.
  pub login_by_email_password-IsAuthenticated :
      (email password : String) (s : AccountStore) {token : String} {s' : AccountStore}
      → login_by_email_password host email password s ≡ (ok token, s')
      → IsAuthenticated host email password s token
  unfolding login_by_email_password build_successful_login_response find_by_email
  login_by_email_password-IsAuthenticated email password s run =
      let (u, found, run1) = or_throw-run _ _ _ (gets-run _ _ run) in
      let (right, run2) = throw_if-run _ _ _ run1 in
      let (made, s1, built, run3) = bind-run _ _ run2 in
      let (_, s2, updated, run4) = bind-run _ _ run3 in
      let (same, kept) = pure-run _ run4 in
      let address : u.email ≡ email =
        (eq_iff u.email email).0 (find_sound (is_email email) s.users u found) in
      record {
        user = u;
        found = found;
        password_right = (eq_iff password u.password).0 (not-not _ right);
        token_of =
            subst (IsTokenOf host u s) same
              (build_jwt_token-IsTokenOf u s (rw address found) built);
      }
