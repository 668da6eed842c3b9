-- ===== src/Accounts/Settings.antt =====
-- src/services/user.service.ts: the password and the alias of a user.
use banking_mobile_backend.Prelude.{
  ℕ, String, some, str_eq, not, is_some, plain, bad_request, Action, ◌>>=◌, ◌>>◌, pure, or_throw,
  throw_if,
}
use banking_mobile_backend.Accounts.{
  Account, AccountStore, find_account, find_by_alias, update_user,
}

abbrev pub with_password : String → Account → Account
with_password password u = record u { password = password }

abbrev pub with_alias : String → Account → Account
with_alias alias u = record u { alias = some alias }

unfoldable pub change_password : ℕ → (current new : String) → Action AccountStore ℕ
change_password user current new = do
  found ← find_account user
  u ← or_throw found (plain "User not found")
  throw_if (not (str_eq current u.password)) (plain "Current password is incorrect")
  throw_if (str_eq current new) (plain "New password must be different from current password")
  update_user user (with_password new)
  pure user

unfoldable pub add_alias : ℕ → String → Action AccountStore String
add_alias user alias = do
  existing ← find_by_alias alias
  throw_if (is_some existing) (bad_request "This alias is already in use")
  update_user user (with_alias alias)
  pure alias
