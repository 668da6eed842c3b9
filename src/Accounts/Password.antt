-- ===== src/Accounts/Password.antt =====
-- What a change of the password means for the logins.
use banking_mobile_backend.Prelude.{
  ℕ, String, ◌≡◌, refl, sym, ap, ◌∙◌, true, false, Option, none, some, str_eq, eq_iff, ==_refl,
  find, find-mapped, update_where, Result-cases, inl, inr, arith, unauthorized, ok, err, ◌>>=◌,
}
use banking_mobile_backend.Prelude.Runs.{gets-run, or_throw-run, bind-run, throw_if-run, pure-run}
use banking_mobile_backend.Prelude.Unique.{numbered, update_row, update_row-run}
use banking_mobile_backend.Accounts.{
  same_text, Account, AccountStore, is_email, account_clash, find_by_email, find_account,
  update_user,
}
use banking_mobile_backend.Accounts.Settings.{with_password, change_password}
use banking_mobile_backend.Accounts.Login.{
  LoginHost, build_successful_login_response, login_by_email_password,
}

same_text_comm : (a b : Option String) → same_text a b ≡ same_text b a
same_text_comm none none = refl
same_text_comm none (some b) = refl
same_text_comm (some a) none = refl
same_text_comm (some a) (some b) = ground (arith, eq_iff a b, eq_iff b a)

account_clash_comm : (u v : Account) → account_clash u v ≡ account_clash v u
account_clash_comm u v =
    ground (arith, same_text_comm u.alias v.alias, eq_iff u.email v.email, eq_iff v.email u.email)

module _ (id : ℕ) (change : Account → Account) (keeps : (u : Account) → (change u).id ≡ u.id) where
  update_user-run :
      (s : AccountStore) {r : Unit {0}} {s' : AccountStore}
      → update_user id change s ≡ (ok r, s')
      → s'.users ≡ update_where (numbered (λ u. u.id) account_clash id) change s.users
  unfolding update_user
  update_user-run s run =
      elim (Result-cases (update_row (λ u. u.id) account_clash id change s.users)) [
        | inl (e, failed) ↦ absurd (cc (rw (failed, update_user) at run))
        | inr (users, done) ↦
            let (u, found, free, after) =
              update_row-run (λ u. u.id) account_clash account_clash_comm id change keeps s.users
                users done in
            ap (λ t. t.1.users) (sym (rw (done, update_user) at run)) ∙ after
      ]

-- What a change of the password that returned has checked and done.
change_password-run :
    (user : ℕ) (current new : String) (s : AccountStore) {r : ℕ} {s' : AccountStore}
    → change_password user current new s ≡ (ok r, s')
    → (str_eq current new ≡ false)
      × (s'.users
          ≡ update_where (numbered (λ u. u.id) account_clash user) (with_password new) s.users)
unfolding change_password find_account
change_password-run user current new s run =
    let (u, found, run1) = or_throw-run _ _ _ (gets-run _ _ run) in
    let (right, run2) = throw_if-run _ _ _ run1 in
    let (differs, run3) = throw_if-run _ _ _ run2 in
    let (_, s1, updated, run4) = bind-run _ _ run3 in
    let (_, kept) = pure-run _ run4 in
    (
      differs,
      ap (λ x. x.users) (sym kept) ∙ update_user-run user (with_password new) (λ u. refl) s updated,
    )

-- After a change of the password that returns, a login with the old password is refused, and a login
-- with the new one passes the check of the password, for the account of the user.
pub change_password-replaces :
    (host : LoginHost) (u : Account) (current new : String) (s : AccountStore) {r : ℕ}
    {s' : AccountStore}
    → find (is_email u.email) s.users ≡ some u
    → change_password u.id current new s ≡ (ok r, s')
    → ((login_by_email_password host u.email current s').0
        ≡ err (unauthorized "Invalid credentials"))
      × (login_by_email_password host u.email new s'
          ≡ build_successful_login_response host u.email u.id s')
unfolding login_by_email_password find_by_email ◌>>=◌
change_password-replaces host u current new s {s'} found run =
    let (differs, users) = change_password-run u.id current new s run in
    let mapped =
      find-mapped (is_email u.email) (numbered (λ u. u.id) account_clash u.id) (with_password new)
        (λ x. refl) s.users in
    let row : find (is_email u.email) s'.users ≡ some (with_password new u) =
      ap (find (is_email u.email)) users ∙ mapped ∙ rw (found, ==_refl u.id) refl in
    let same : str_eq new new ≡ true = ground (arith, eq_iff new new) in
    (rw (row, differs, login_by_email_password) refl, rw (row, same, login_by_email_password) refl)
