-- ===== src/Cards/Assigned.antt =====
-- src/services/card.service.ts, `assignCard`: a card that was assigned is not assigned again.
use banking_mobile_backend.Prelude.{
  ℕ, String, ◌≡◌, ◌≢◌, refl, ap, Bool, some, List, [], ◌∷◌, arith, find, update_where, ok, err,
  bad_request, ◌>>=◌,
}
use banking_mobile_backend.Prelude.Runs.{gets-run, or_throw-run, throw_if-run}
use banking_mobile_backend.Cards.{
  Card, CardStore, has_identifier, get_card_by_identifier, update_card_by_identifier,
}
use banking_mobile_backend.Cards.Service.{given, with_user, assign_card}

find-updated {ℓ} :
    {A : Type ℓ} (p : A → Bool) (f : A → A) (xs : List A) (x : A)
    → ((y : A) → p (f y) ≡ p y)
    → find p xs ≡ some x
    → find p (update_where p f xs) ≡ some (f x)
unfolding find update_where
find-updated p f [] x same e = cc
find-updated p f (y ∷ ys) x same e = ground (arith, same y, find-updated p f ys x same)

given-some : (user : ℕ) → user ≢ 0 → given (some user) ≡ some user
given-some ℕ.zero h = absurd (h refl)
given-some (ℕ.suc n) h = refl

-- The identifier finds a card of the user.
pub record IsAssigned (identifier : String) (user : ℕ) (s : CardStore) : Type 0 where
  pub row : Card
  pub found : find (has_identifier identifier) s.cards ≡ some row
  pub owner : row.user_id ≡ some user

pub assign_card-IsAssigned :
    (user : ℕ) (identifier : String) (s : CardStore) {s' : CardStore}
    → assign_card user identifier s ≡ (ok tt, s')
    → IsAssigned identifier user s'
unfolding assign_card get_card_by_identifier update_card_by_identifier
assign_card-IsAssigned user identifier s {s'} run =
    let (card, found, run1) = or_throw-run _ _ _ (gets-run _ _ run) in
    let (free, run2) = throw_if-run _ _ _ run1 in
    let final = ap (λ t. t.1) run2 in
    rw (← final) (record {
      row = with_user user card;
      found =
          find-updated (has_identifier identifier) (with_user user) s.cards card (λ c. refl) found;
      owner = refl;
    })

-- A card that was assigned to a user is not assigned again, to nobody: the second request is refused
-- and changes nothing. (A user's id is not 0, which the code takes for no user.)
pub assign_card-once :
    (user other : ℕ) (identifier : String) (s : CardStore) {s' : CardStore}
    → user ≢ 0
    → assign_card user identifier s ≡ (ok tt, s')
    → assign_card other identifier s' ≡ (err (bad_request "Card already assigned"), s')
unfolding assign_card get_card_by_identifier ◌>>=◌
assign_card-once user other identifier s {s'} positive run =
    let h = assign_card-IsAssigned user identifier s run in
    rw (h.found, h.owner, given-some user positive, ◌>>=◌)
