-- ===== src/Cards/Authorized.antt =====
-- What the guards have established when a request to stop or unstop a card comes back.
use banking_mobile_backend.Prelude.{
  ℕ, String, ◌≡◌, ◌⊎◌, inl, inr, refl, sym, ap, ◌∙◌, Bool, true, false, not, Option, none, some,
  List, Bool-cases, arith, find, ok, Error, Action, ◌>>◌, pure, throw_if, truthy, str_eq, eq_iff,
  if◌then◌else◌,
}
use banking_mobile_backend.Prelude.Runs.{gets-run, or_throw-run, or_throw-run_some, bind-run}
use banking_mobile_backend.Cards.{
  Card, CardCall, CardStore, has_card_id, is_user, is_physical, get_card_by_id,
}
use banking_mobile_backend.Cards.Service.{CardServices, ask_cards, stop_card, unstop_card}
use banking_mobile_backend.Cards.Guards.{validate_card_ownership, check_pin, validate_card_pin}
use banking_mobile_backend.Cards.Access.{stop_route, unstop_route}

throw_if-passed :
    {S : Type 0} {s s' : S} {u : Unit {0}} (c : Bool) (e : Error)
    → throw_if c e s ≡ (ok u, s')
    → (c ≡ false) × (s ≡ s')
unfolding throw_if
throw_if-passed true e h = cc
throw_if-passed false e h = (refl, cc)

not-false : (b : Bool) → not b ≡ false → b ≡ true
not-false b h = ground arith

truthy-some : (o : Option String) (t : String) → truthy o ≡ some t → o ≡ some t
truthy-some none t h = cc
truthy-some (some u) t h = ground arith

same_text : (t u : String) → not (str_eq t u) ≡ false → t ≡ u
same_text t u h = ground (arith, eq_iff t u)

-- The PIN is the one that the backoffice has for a physical card.
abbrev pub HasPin : CardServices → String → Card → List CardCall → Type 0
HasPin env pin row calls =
    (key : ℕ) × (row.prospera_card_id ≡ some key) × (env.view_pin calls key ≡ ok (some pin))

check_pin-HasPin :
    (env : CardServices) (pin : String) (key : ℕ) (s : CardStore) {u : Unit {0}} {s' : CardStore}
    → check_pin env pin key s ≡ (ok u, s')
    → env.view_pin s.calls key ≡ ok (some pin)
unfolding check_pin ask_cards
check_pin-HasPin env pin key s run =
    let (answer, middle, asked, run1) = bind-run _ _ run in
    let (remote, there, run2) = or_throw-run _ _ _ run1 in
    ap (λ t. t.0) asked
    ∙ ap (λ o. ok o) (truthy-some answer remote there)
    ∙ ap (λ t. ok (some t)) (same_text remote pin (throw_if-passed _ _ run2).0)

pub record IsAuthorized (env : CardServices) (user id : ℕ) (pin : String) (s : CardStore)
    : Type 0 where
  pub row : Card
  pub found : find (has_card_id id) s.cards ≡ some row
  pub owner : is_user user row.user_id ≡ true
  pub has_pin : (is_physical row.card_type ≡ false) ⊎ HasPin env pin row s.calls

module _ (env : CardServices) (pin : String) (row : Card) (s : CardStore) where
  pin_of_row :
      (key : ℕ) {u : Unit {0}} {s' : CardStore}
      → row.prospera_card_id ≡ some key
      → (if is_physical row.card_type then check_pin env pin key else pure tt) s ≡ (ok u, s')
      → (is_physical row.card_type ≡ false) ⊎ HasPin env pin row s.calls
  pin_of_row key keyed run = elim (Bool-cases (is_physical row.card_type)) [
    | inl card ↦ inr (key, keyed, check_pin-HasPin env pin key s (rw card at run))
    | inr other ↦ inl other
  ]

  validate_card_pin-HasPin :
      (id : ℕ) {u : Unit {0}} {s' : CardStore}
      → find (has_card_id id) s.cards ≡ some row
      → validate_card_pin env pin id s ≡ (ok u, s')
      → (is_physical row.card_type ≡ false) ⊎ HasPin env pin row s.calls
  unfolding validate_card_pin get_card_by_id
  validate_card_pin-HasPin id found run =
      let run1 = or_throw-run_some _ row _ _ found (gets-run _ _ run) in
      let (key, keyed, run2) = or_throw-run _ _ _ run1 in pin_of_row key keyed run2

guards-IsAuthorized :
    (env : CardServices) (user id : ℕ) (pin : String) {A : Type 0} (m : Action CardStore A)
    (s : CardStore) {a : A} {s' : CardStore}
    → (validate_card_ownership user id >> (validate_card_pin env pin id >> m)) s ≡ (ok a, s')
    → IsAuthorized env user id pin s
unfolding validate_card_ownership get_card_by_id
guards-IsAuthorized env user id pin m s run =
    let (u, middle, owned, run1) = bind-run (validate_card_ownership user id) _ run in
    let (row, found, run2) = or_throw-run _ _ _ (gets-run _ _ owned) in
    let (owner, same) = throw_if-passed _ _ run2 in
    let (v, end, checked, run3) = bind-run (validate_card_pin env pin id) _ run1 in
    record {
      row = row;
      found = found;
      owner = not-false _ owner;
      has_pin = validate_card_pin-HasPin env pin row s id found (rw (sym same) at checked);
    }

-- A stop or an unstop that comes back without an error was asked for by the owner of the card, and
-- for a physical card with the PIN that the backoffice gives.
pub routes-IsAuthorized :
    (env : CardServices) (user id : ℕ) (pin : String) (s : CardStore) (key : ℕ) (s' : CardStore)
    → (stop_route env user id pin s ≡ (ok key, s'))
      ⊎ (unstop_route env user id pin s ≡ (ok key, s'))
    → IsAuthorized env user id pin s
unfolding stop_route unstop_route
routes-IsAuthorized env user id pin s key s' (inl run) =
    guards-IsAuthorized env user id pin (stop_card env id) s run
routes-IsAuthorized env user id pin s key s' (inr run) =
    guards-IsAuthorized env user id pin (unstop_card env id) s run
