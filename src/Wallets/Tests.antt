-- ===== src/Wallets/Tests.antt =====
-- The theorem on wallets at a user without one.
use banking_mobile_backend.Prelude.{ℕ, ◌≡◌, refl, List, [], Result, ok, find, any, ◌>>=◌}
use banking_mobile_backend.Prelude.Unique.{insert_row}
use banking_mobile_backend.Wallets.{
  CrossmintWallet, WalletStore, WalletResponse, active, find_by_user_id, create_wallet, ask_wallet,
  create_at_provider, create_or_get_wallet, get_wallet_by_user,
}
use banking_mobile_backend.Wallets.Kept.{create_or_get_wallet-again}

abbrev crossmint : List ℕ → ℕ → Result CrossmintWallet
crossmint created user = ok (record { id = "cm"; address = "G1" })

abbrev store : WalletStore
store = record { rows = []; next_id = 1; created = [] }

abbrev answer : WalletResponse
answer = record {
  id = 1;
  user_id = 5;
  crossmint_wallet_id = "cm";
  wallet_address = "G1";
  chain_type = "STELLAR";
  status = active;
  created_at = 7;
}

abbrev after : WalletStore
after = (create_or_get_wallet 7 crossmint 5 store).1

create_run : create_or_get_wallet 7 crossmint 5 store ≡ (ok answer, after)
unfolding create_or_get_wallet find_by_user_id create_at_provider ask_wallet create_wallet
    insert_row find any ◌>>=◌
create_run = refl

create_or_get_wallet-again_example :
    (get_wallet_by_user 5 after ≡ (ok answer, after))
    × (create_or_get_wallet 9 crossmint 5 after ≡ (ok answer, after))
create_or_get_wallet-again_example =
    create_or_get_wallet-again 7 9 crossmint crossmint 5 store create_run
