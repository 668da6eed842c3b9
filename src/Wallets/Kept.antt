-- ===== src/Wallets/Kept.antt =====
-- A wallet that was created is the one that is found later.
use banking_mobile_backend.Prelude.{
  ℕ, ◌≡◌, refl, sym, ap, ◌∙◌, false, Option, none, some, List, [], ◌∷◌, ◌++◌, ==_refl, find, any,
  Bool-cases, inl, inr, arith, Result, ok, ◌>>=◌,
}
use banking_mobile_backend.Prelude.Runs.{gets-run, bind-run, pure-run}
use banking_mobile_backend.Prelude.Unique.{insert_row}
use banking_mobile_backend.Wallets.{
  UserWallet, WalletResponse, CrossmintWallet, WalletStore, of_user, wallet_clash, find_by_user_id,
  create_wallet, new_wallet, to_wallet_response, create_at_provider, existing_or_new,
  create_or_get_wallet, get_wallet_by_user,
}

find-append :
    (user : ℕ) (w : UserWallet) (rows : List UserWallet)
    → w.user_id ≡ user
    → any (wallet_clash w) rows ≡ false
    → find (of_user user) (rows ++ (w ∷ [])) ≡ some w
unfolding find any
find-append user w [] same free = rw (same, ==_refl user) refl
find-append user w (v ∷ vs) same free =
    let later = find-append user w vs same (ground (arith, free)) in
    ground (arith, same, free, later)

module _ (now : ℕ) (crossmint : List ℕ → ℕ → Result CrossmintWallet) (user : ℕ) where
  create_wallet-run :
      (c : CrossmintWallet) (s : WalletStore) {w : UserWallet} {s' : WalletStore}
      → create_wallet (new_wallet now user c) s ≡ (ok w, s')
      → find (of_user user) s'.rows ≡ some w
  unfolding create_wallet insert_row
  create_wallet-run c s {w} run =
      let new = new_wallet now user c s.next_id in
      elim (Bool-cases (any (wallet_clash new) s.rows)) [
        | inl taken ↦ absurd (cc (rw (taken, create_wallet) at run))
        | inr free ↦
            let done = rw (free, create_wallet) at run in
            let same : new ≡ w = cc done in
            ap (λ t. find (of_user user) t.1.rows) (sym done)
            ∙ find-append user new s.rows refl free
            ∙ ap (λ v. some v) same
      ]

  existing_or_new-run :
      (o : Option UserWallet) (s : WalletStore) {r : WalletResponse} {s' : WalletStore}
      → find (of_user user) s.rows ≡ o
      → existing_or_new now crossmint user o s ≡ (ok r, s')
      → (w : UserWallet) × (find (of_user user) s'.rows ≡ some w) × (to_wallet_response w ≡ r)
  unfolding create_at_provider
  existing_or_new-run none s known run =
      let (c, s1, asked, run1) = bind-run _ _ run in
      let (w, s2, made, run2) = bind-run _ _ run1 in
      let (same, kept) = pure-run _ run2 in
      (w, ap (λ x. find (of_user user) x.rows) (sym kept) ∙ create_wallet-run c s1 made, same)
  existing_or_new-run (some w) s known run =
      let (same, kept) = pure-run _ run in
      (w, ap (λ x. find (of_user user) x.rows) (sym kept) ∙ known, same)

  create_or_get_wallet-run :
      (s : WalletStore) {r : WalletResponse} {s' : WalletStore}
      → create_or_get_wallet now crossmint user s ≡ (ok r, s')
      → (w : UserWallet) × (find (of_user user) s'.rows ≡ some w) × (to_wallet_response w ≡ r)
  unfolding create_or_get_wallet find_by_user_id
  create_or_get_wallet-run s run = existing_or_new-run _ s refl (gets-run _ _ run)

-- A wallet that was created or found for a user is what a later reading gives, and what a later
-- request to create one gives, at any time and without asking the provider again.
pub create_or_get_wallet-again :
    (now later : ℕ) (crossmint again : List ℕ → ℕ → Result CrossmintWallet) (user : ℕ)
    (s : WalletStore) {r : WalletResponse} {s' : WalletStore}
    → create_or_get_wallet now crossmint user s ≡ (ok r, s')
    → (get_wallet_by_user user s' ≡ (ok r, s'))
      × (create_or_get_wallet later again user s' ≡ (ok r, s'))
unfolding get_wallet_by_user create_or_get_wallet find_by_user_id ◌>>=◌
create_or_get_wallet-again now later crossmint again user s {r} {s'} run =
    let (w, found, same) = create_or_get_wallet-run now crossmint user s run in
    (
      rw (found, get_wallet_by_user) (ap (λ x. (ok x, s')) same),
      rw (found, create_or_get_wallet) (ap (λ x. (ok x, s')) same),
    )
