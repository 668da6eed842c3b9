-- ===== src/Transfer/Route.antt =====
-- src/middlewares/validateTransferCardPin.ts and the route of src/routes/transfer.routes.ts for a
-- transfer: the PIN guard in front of the transfer.
use banking_mobile_backend.Prelude.{
  ℕ, String, ◌≡◌, refl, ap, ◌∙◌, ◌⊎◌, inl, inr, Bool, true, false, not, Option, none, some, truthy,
  is_some, List, [], ◌∷◌, select, find, str_eq, eq_iff, Bool-cases, Result-cases, arith,
  bad_request, not_found, unauthorized, Result, ok, Action, ◌>>=◌, ◌>>◌, pure, gets, or_throw,
  throw_if,
}
use banking_mobile_backend.Prelude.Runs.{gets-run, or_throw-run, bind-run}
use banking_mobile_backend.Cards.{Card, CardCall, CardStore, is_physical, is_user}
use banking_mobile_backend.Cards.Service.{CardServices, ask_cards, given, backoffice_id}
use banking_mobile_backend.Cards.Guards.{check_pin}
use banking_mobile_backend.Transfer.{QueryType, TransferRequest, transfer}
use banking_mobile_backend.Transfer.Receipts.{TransferHost, TransferStore, Receipt}
use banking_mobile_backend.Transfer.Sent.{transfers}

-- `physicalCards.find(card => card.prosperaCardId)`, and its number at the backoffice.
abbrev pub target_key : List Card → Option ℕ
target_key cards = backoffice_id (find (λ c. is_some (given c.prospera_card_id)) cards)

abbrev pub physical_cards : ℕ → List Card → List Card
physical_cards user cards =
    select (λ c. is_physical c.card_type) (select (λ c. is_user user c.user_id) cards)

module _ (env : CardServices) (pin : Option String) where
  abbrev pub check_physical : List Card → Action CardStore (Unit {0})
  check_physical [] = pure tt
  check_physical (c ∷ cs) = do
    given_pin ← or_throw (truthy pin) (bad_request "PIN requerido")
    key ← or_throw (target_key (c ∷ cs)) (not_found "Card inválida")
    check_pin env given_pin key

  unfoldable pub validate_transfer_card_pin : ℕ → Action CardStore (Unit {0})
  unfolding select find
  validate_transfer_card_pin user = do
    cards ← gets (λ s. physical_cards user s.cards)
    check_physical cards

pub record Bank : Type 0 where
  pub cards : CardStore
  pub wallet : TransferStore

unfoldable pub guard_transfer : Action CardStore (Unit {0}) → Action Bank (Unit {0})
guard_transfer m s = let (r, cards) = m s.cards in (r, record s { cards = cards })

unfoldable pub in_wallet : {A : Type 0} → Action TransferStore A → Action Bank A
in_wallet m s = let (r, wallet) = m s.wallet in (r, record s { wallet = wallet })

-- `router.post('/', ..., validateTransferCardPin(), TransferController.transfer)`
unfoldable pub transfer_route :
    (env : CardServices) (host : TransferHost) (pin : Option String) (user : ℕ)
    (request : TransferRequest) (customer : ℕ) (query : QueryType)
    → Action Bank (String × Receipt)
transfer_route env host pin user request customer query =
    guard_transfer (validate_transfer_card_pin env pin user)
    >> in_wallet (transfer host user request customer query)

-- The caller has no physical card, or gave the PIN that the backoffice keeps for one of them.
pub data IsPermitted (env : CardServices) (pin : Option String) (user : ℕ) (s : CardStore)
    : Type 0 where
  no_card : physical_cards user s.cards ≡ [] → IsPermitted env pin user s
  right_pin :
      (key : ℕ) (p : String)
      → target_key (physical_cards user s.cards) ≡ some key
      → pin ≡ some p
      → env.view_pin s.calls key ≡ ok (some p)
      → IsPermitted env pin user s

truthy-same : (o : Option String) (t : String) → truthy o ≡ some t → o ≡ some t
truthy-same none t h = cc h
truthy-same (some x) t h = elim (Bool-cases (str_eq x "")) [
  | inl blank ↦ cc (blank, h)
  | inr full ↦ ground (arith, full, h)
]

not-false : (b : Bool) → not b ≡ false → b ≡ true
not-false b h = ground arith

rejected :
    {S : Type 0} (remote p : String) (s : S) {s' : S} {u : Unit {0}}
    → throw_if (not (str_eq remote p)) (unauthorized "Invalid PIN") s ≡ (ok u, s')
    → not (str_eq remote p) ≡ false
unfolding throw_if
rejected remote p s run = elim (Bool-cases (str_eq remote p)) [
  | inl right ↦ rw right refl
  | inr wrong ↦ absurd (cc (rw wrong at run))
]

paired : {S A : Type 0} {t : Result A × S} {a : A} → t.0 ≡ ok a → t ≡ (ok a, t.1)
paired {t} h = λ i. (h i, t.1)

module _ (env : CardServices) (pin : Option String) (user : ℕ) where
  check_pin-run :
      (p : String) (key : ℕ) (s : CardStore) {u : Unit {0}} {s' : CardStore}
      → check_pin env p key s ≡ (ok u, s')
      → env.view_pin s.calls key ≡ ok (some p)
  unfolding check_pin ask_cards
  check_pin-run p key s run =
      let (answer, s1, asked, run1) =
        bind-run (ask_cards (CardCall.view_pin key) (λ calls. env.view_pin calls key)) _ run in
      let (remote, known, run2) = or_throw-run _ _ _ run1 in
      let right : str_eq remote p ≡ true = not-false _ (rejected remote p s1 run2) in
      ap (λ t. t.0) asked
      ∙ ap (λ o. ok o)
          (truthy-same answer remote known ∙ ap (λ x. some x) ((eq_iff remote p).0 right))

  check_physical-IsPermitted :
      (cards : List Card) (s : CardStore) {u : Unit {0}} {s' : CardStore}
      → physical_cards user s.cards ≡ cards
      → check_physical env pin cards s ≡ (ok u, s')
      → IsPermitted env pin user s
  check_physical-IsPermitted [] s same run = no_card same
  check_physical-IsPermitted (c ∷ cs) s same run =
      let (p, present, run1) = or_throw-run _ _ _ run in
      let (key, known, run2) = or_throw-run _ _ _ run1 in
      right_pin key p (ap target_key same ∙ known) (truthy-same pin p present)
        (check_pin-run p key s run2)

  validate_transfer_card_pin-IsPermitted :
      (s : CardStore) {u : Unit {0}} {s' : CardStore}
      → validate_transfer_card_pin env pin user s ≡ (ok u, s')
      → IsPermitted env pin user s
  unfolding validate_transfer_card_pin
  validate_transfer_card_pin-IsPermitted s run =
      check_physical-IsPermitted (physical_cards user s.cards) s refl (gets-run _ _ run)

  pub transfer_route-IsPermitted :
      (host : TransferHost) (request : TransferRequest) (customer : ℕ) (query : QueryType)
      (s : Bank)
      → let after = (transfer_route env host pin user request customer query s).1 in
        (transfers after.wallet.calls ≡ transfers s.wallet.calls) ⊎ IsPermitted env pin user s.cards
  unfolding transfer_route guard_transfer ◌>>=◌
  transfer_route-IsPermitted host request customer query s =
      elim (Result-cases (validate_transfer_card_pin env pin user s.cards).0) [
        | inl (e, refused) ↦ inl (rw (refused, transfer_route) refl)
        | inr (u, passed) ↦ inr (validate_transfer_card_pin-IsPermitted s.cards (paired passed))
      ]
