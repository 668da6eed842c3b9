-- ===== src/Wallets.antt =====
-- src/services/userWallet.service.ts and src/repositories/userWallet.repository.ts: the one wallet of
-- a user at the provider Crossmint.
pub mod Kept
mod Tests
use banking_mobile_backend.Prelude.{
  ℕ, String, suc, Bool, ◌||◌, Option, none, some, List, [], ◌∷◌, ◌==◌, str_eq, or_else, find,
  update_where, database, not_found, Result, ok, err, Action, ◌>>=◌, ◌>>◌, pure, gets, or_throw,
}
use banking_mobile_backend.Prelude.Unique.{insert_row, update_row}

pub data WalletStatus : Type 0 where
  active pending disabled : WalletStatus

-- A row of `UserWallet`. Provider, chain and custody have one value each in what the service
-- creates; they are texts here.
pub record UserWallet : Type 0 where
  pub id : ℕ
  pub user_id : ℕ
  pub provider : String
  pub provider_wallet_id : String
  pub wallet_address : String
  pub chain : String
  pub custody_type : String
  pub status : WalletStatus
  pub created_at : ℕ

pub record WalletResponse : Type 0 where
  pub id : ℕ
  pub user_id : ℕ
  pub crossmint_wallet_id : String
  pub wallet_address : String
  pub chain_type : String
  pub status : WalletStatus
  pub created_at : ℕ

pub record CrossmintWallet : Type 0 where
  pub id : String
  pub address : String

-- `created` lists the users for whom the provider was asked for a wallet.
pub record WalletStore : Type 0 where
  pub rows : List UserWallet
  pub next_id : ℕ
  pub created : List ℕ

-- The fields of an update that are present.
pub record WalletUpdate : Type 0 where
  pub provider : Option String
  pub provider_wallet_id : Option String
  pub wallet_address : Option String
  pub chain : Option String
  pub custody_type : Option String
  pub status : Option WalletStatus

abbrev pub of_user : ℕ → UserWallet → Bool
of_user user w = w.user_id == user

-- The unique columns: `userId` and `providerWalletId`.
abbrev pub wallet_clash : UserWallet → UserWallet → Bool
wallet_clash w v = w.user_id == v.user_id || str_eq w.provider_wallet_id v.provider_wallet_id

unfoldable pub find_by_user_id : ℕ → Action WalletStore (Option UserWallet)
unfolding find
find_by_user_id user = gets (λ s. find (of_user user) s.rows)

unfoldable pub find_wallet : ℕ → Action WalletStore (Option UserWallet)
unfolding find
find_wallet id = gets (λ s. find (λ (w : UserWallet). w.id == id) s.rows)

abbrev pub with_created :
    WalletStore → UserWallet → Result (List UserWallet) → Result UserWallet × WalletStore
with_created s w (ok rows) = (ok w, record s { rows = rows; next_id = suc s.next_id })
with_created s w (err e) = (err e, s)

unfoldable pub create_wallet : (ℕ → UserWallet) → Action WalletStore UserWallet
unfolding insert_row
create_wallet row s =
    let w = row s.next_id in
    with_created s w (insert_row (λ (v : UserWallet). v.id) wallet_clash w s.rows)

abbrev pub updated : WalletUpdate → UserWallet → UserWallet
updated u w = record w {
  provider = or_else u.provider w.provider;
  provider_wallet_id = or_else u.provider_wallet_id w.provider_wallet_id;
  wallet_address = or_else u.wallet_address w.wallet_address;
  chain = or_else u.chain w.chain;
  custody_type = or_else u.custody_type w.custody_type;
  status = or_else u.status w.status;
}

abbrev pub with_updated : WalletStore → Result (List UserWallet) → Result (Unit {0}) × WalletStore
with_updated s (ok rows) = (ok tt, record s { rows = rows })
with_updated s (err e) = (err e, s)

abbrev pub update_found :
    WalletUpdate → WalletStore → Option UserWallet → Result (Unit {0}) × WalletStore
update_found u s none = (err (database "Record to update not found."), s)
update_found u s (some w) =
    with_updated s (update_row (λ (v : UserWallet). v.id) wallet_clash w.id (updated u) s.rows)

-- `update({ where: { userId } })`
unfoldable pub update_by_user_id : ℕ → WalletUpdate → Action WalletStore (Unit {0})
unfolding find update_row
update_by_user_id user u s = update_found u s (find (of_user user) s.rows)

abbrev pub to_wallet_response : UserWallet → WalletResponse
to_wallet_response w = record {
  id = w.id;
  user_id = w.user_id;
  crossmint_wallet_id = w.provider_wallet_id;
  wallet_address = w.wallet_address;
  chain_type = w.chain;
  status = w.status;
  created_at = w.created_at;
}

abbrev pub new_wallet : (now user : ℕ) → CrossmintWallet → ℕ → UserWallet
new_wallet now user c id = record {
  id = id;
  user_id = user;
  provider = "CROSSMINT";
  provider_wallet_id = c.id;
  wallet_address = c.address;
  chain = "STELLAR";
  custody_type = "NON_CUSTODIAL";
  status = active;
  created_at = now;
}

-- `crossmint` is the provider: it answers by the users asked for so far and the user.
module _ (now : ℕ) (crossmint : List ℕ → ℕ → Result CrossmintWallet) where
  unfoldable pub ask_wallet : ℕ → Action WalletStore CrossmintWallet
  ask_wallet user s = (crossmint s.created user, record s { created = user ∷ s.created })

  unfoldable pub create_at_provider : ℕ → Action WalletStore WalletResponse
  create_at_provider user = do
    c ← ask_wallet user
    w ← create_wallet (new_wallet now user c)
    pure (to_wallet_response w)

  abbrev pub existing_or_new : ℕ → Option UserWallet → Action WalletStore WalletResponse
  existing_or_new user (some w) = pure (to_wallet_response w)
  existing_or_new user none = create_at_provider user

  unfoldable pub create_or_get_wallet : ℕ → Action WalletStore WalletResponse
  create_or_get_wallet user = do existing ← find_by_user_id user; existing_or_new user existing

unfoldable pub get_wallet_by_user : ℕ → Action WalletStore WalletResponse
get_wallet_by_user user = do
  found ← find_by_user_id user
  w ← or_throw found (not_found "Wallet not found for this user.")
  pure (to_wallet_response w)
