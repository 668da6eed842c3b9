-- ===== src/Accounts/Registered.antt =====
-- A registration is done once.
use banking_mobile_backend.Prelude.{
  String, ◌≡◌, refl, sym, ap, ◌∙◌, false, Option, none, some, List, [], ◌∷◌, ◌++◌, ◌==◌, ==_refl,
  find, update_where, Bool-cases, Option-cases, inl, inr, Result, ok, ◌>>=◌,
}
use banking_mobile_backend.Prelude.Runs.{gets-run, or_throw-run, bind-run, pure-run}
use banking_mobile_backend.Accounts.{
  Account, AuthState, CustomerProfile, AccountCall, AccountStore, state_of, is_email, ask_account,
  find_by_email, find_auth_state, upsert_auth_state, upsert_profile,
}
use banking_mobile_backend.Accounts.Register.{
  RegisterHost, Registration, new_profile, new_auth_state, provision, provision_new,
  register_by_email,
}

find-append :
    (a : AuthState) (states : List AuthState)
    → (b : AuthState) × (find (state_of a.user_id) (states ++ (a ∷ [])) ≡ some b)
unfolding find
find-append a [] = (a, rw (==_refl a.user_id) refl)
find-append a (b ∷ bs) = elim (Bool-cases (b.user_id == a.user_id)) [
  | inl here ↦ (b, rw here refl)
  | inr later ↦ let (c, found) = find-append a bs in (c, rw later found)
]

find-replaced :
    (a b : AuthState) (states : List AuthState)
    → find (state_of a.user_id) states ≡ some b
    → find (state_of a.user_id) (update_where (state_of a.user_id) (λ _. a) states) ≡ some a
unfolding find update_where
find-replaced a b [] h = cc h
find-replaced a b (c ∷ cs) h = elim (Bool-cases (c.user_id == a.user_id)) [
  | inl here ↦ rw here (rw (==_refl a.user_id) refl)
  | inr later ↦ rw later (rw later (find-replaced a b cs (rw later at h)))
]

-- After `upsert_auth_state` the state is found.
upserted :
    (a : AuthState) (s : AccountStore)
    → (b : AuthState) × (find (state_of a.user_id) (upsert_auth_state a s).1.auth_states ≡ some b)
unfolding upsert_auth_state
upserted a s = elim (Option-cases (find (state_of a.user_id) s.auth_states)) [
  | inl missing ↦
      let (b, found) = find-append a s.auth_states in (b, rw (missing, upsert_auth_state) found)
  | inr (b, known) ↦ (a, rw (known, upsert_auth_state) (find-replaced a b s.auth_states known))
]

ask_account-run :
    {A : Type 0} (call : AccountCall) (answer : List AccountCall → Result A) (s : AccountStore)
    {a : A} {s' : AccountStore}
    → ask_account call answer s ≡ (ok a, s')
    → (s'.users ≡ s.users) × (s'.auth_states ≡ s.auth_states)
unfolding ask_account
ask_account-run call answer s run =
    (ap (λ t. t.1.users) (sym run), ap (λ t. t.1.auth_states) (sym run))

upsert_profile-run :
    (p : CustomerProfile) (s : AccountStore) {u : Unit {0}} {s' : AccountStore}
    → upsert_profile p s ≡ (ok u, s')
    → s'.users ≡ s.users
unfolding upsert_profile
upsert_profile-run p s run = ap (λ t. t.1.users) (sym run)

upsert_auth_state-run :
    (a : AuthState) (s : AccountStore) {u : Unit {0}} {s' : AccountStore}
    → upsert_auth_state a s ≡ (ok u, s')
    → s'.users ≡ s.users
unfolding upsert_auth_state
upsert_auth_state-run a s run = ap (λ t. t.1.users) (sym run)

module _ (host : RegisterHost) where
  provision-run :
      (user : Account) (s : AccountStore) {r : Registration} {s' : AccountStore}
      → provision host user s ≡ (ok r, s')
      → (s'.users ≡ s.users)
        × (r.email ≡ user.email)
        × (b : AuthState) × (find (state_of user.id) s'.auth_states ≡ some b)
  unfolding provision
  provision-run user s run =
      let (account, s1, created, run1) = bind-run _ _ run in
      let (_, s2, profiled, run2) = bind-run _ _ run1 in
      let (_, s3, stated, run3) = bind-run _ _ run2 in
      let (_, s4, assigned, run4) = bind-run _ _ run3 in
      let (same, kept) = pure-run _ run4 in
      let (users1, states1) = ask_account-run _ _ s created in
      let (users4, states4) = ask_account-run _ _ s3 assigned in
      let (b, found) = upserted (new_auth_state host user.id account) s2 in
      (
        ap (λ x. x.users) (sym kept)
            ∙ users4
            ∙ upsert_auth_state-run (new_auth_state host user.id account) s2 stated
            ∙ upsert_profile-run (new_profile host user.id account) s1 profiled
            ∙ users1,
        ap (λ x. x.email) (sym same),
        b,
        ap (find (state_of user.id)) (
              ap (λ x. x.auth_states) (sym kept) ∙ states4 ∙ ap (λ t. t.1.auth_states) (sym stated))
            ∙ found,
      )

  provision_new-run :
      (user : Account) (state : Option AuthState) (s : AccountStore) {r : Registration}
      {s' : AccountStore}
      → find (state_of user.id) s.auth_states ≡ state
      → provision_new host user state s ≡ (ok r, s')
      → (s'.users ≡ s.users)
        × (r.email ≡ user.email)
        × (b : AuthState) × (find (state_of user.id) s'.auth_states ≡ some b)
  provision_new-run user none s known run = provision-run user s run
  provision_new-run user (some b) s known run =
      let (same, kept) = pure-run _ run in
      (
        ap (λ x. x.users) (sym kept),
        ap (λ x. x.email) (sym same),
        b,
        ap (λ x. find (state_of user.id) x.auth_states) (sym kept) ∙ known,
      )

register_by_email-run :
    (host : RegisterHost) (email : String) (s : AccountStore) {r : Registration} {s' : AccountStore}
    → register_by_email host email s ≡ (ok r, s')
    → (user : Account) × (find (is_email email) s'.users ≡ some user)
      × (r.email ≡ user.email)
      × (b : AuthState) × (find (state_of user.id) s'.auth_states ≡ some b)
unfolding register_by_email find_by_email find_auth_state
register_by_email-run host email s run =
    let (user, found, run1) = or_throw-run _ _ _ (gets-run _ _ run) in
    let (users, same, b, known) = provision_new-run host user _ s refl (gets-run _ _ run1) in
    (user, ap (find (is_email email)) users ∙ found, same, b, known)

-- A registration that returned is not done again: a later one of the same address, with any answers
-- of the backoffice, returns that nothing was created, makes no call and changes nothing.
pub register_by_email-once :
    (host again : RegisterHost) (email : String) (s : AccountStore) {r : Registration}
    {s' : AccountStore}
    → register_by_email host email s ≡ (ok r, s')
    → register_by_email again email s' ≡ (ok (record { email = r.email; created = false }), s')
unfolding register_by_email find_by_email find_auth_state ◌>>=◌
register_by_email-once host again email s {r} {s'} run =
    let (user, row, same, b, known) = register_by_email-run host email s run in
    rw (row, known, same, register_by_email) refl
