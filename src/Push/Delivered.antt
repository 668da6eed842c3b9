-- ===== src/Push/Delivered.antt =====
-- A message to a user: every active token is tried once, and the counters of the result.
use banking_mobile_backend.Prelude.{
  ℕ, String, suc, ◌+◌, ◌≤◌, ◌≡◌, refl, ap, ◌∙◌, true, none, some, List, [], ◌∷◌, length, All,
  Bool-cases, inl, inr, find, update_where, select, any, arith, eq_iff, Result, ok, ◌>>=◌,
}
use banking_mobile_backend.Push.{
  DeviceToken, PushStore, Delivery, delivered, undelivered, NotificationSendResult, of_token,
  is_active_of, deactivated, is_invalid_code, deactivate_token, find_active_tokens_by_user_id, send,
  count_sent, send_to_tokens, send_to_user,
}

-- The tokens of `rows` are tried in their order, the newest message stands first.
abbrev pub tried : List DeviceToken → List String → List String
tried [] sent = sent
tried (r ∷ rs) sent = tried rs (r.fcm_token ∷ sent)

abbrev pub IsKnown : List DeviceToken → DeviceToken → Type 0
IsKnown rows r = any (of_token r.fcm_token) rows ≡ true

-- How a loop over tokens ended.
pub record Ended (t : Result (ℕ × ℕ) × PushStore) (total : ℕ) (sent : List String)
    (known : List DeviceToken) : Type 0 where
  pub counts : ℕ × ℕ
  pub after : PushStore
  pub returned : t ≡ (ok counts, after)
  pub bounded : counts.0 + counts.1 ≤ total
  pub messages : after.sent ≡ sent
  pub still_known : (token : String) → any (of_token token) after.rows ≡ any (of_token token) known

any-deactivated :
    (token other : String) (rows : List DeviceToken)
    → any (of_token token) (update_where (of_token other) deactivated rows)
      ≡ any (of_token token) rows
unfolding any update_where
any-deactivated token other [] = refl
any-deactivated token other (r ∷ rs) = ground (arith, any-deactivated token other rs)

known_row :
    (token : String) (rows : List DeviceToken)
    → any (of_token token) rows ≡ true
    → (r : DeviceToken) × (find (of_token token) rows ≡ some r)
unfolding any find
known_row token [] h = cc h
known_row token (r ∷ rs) h = elim (Bool-cases (of_token token r)) [
  | inl here ↦ (r, rw here refl)
  | inr later ↦ let (q, found) = known_row token rs (rw later at h) in (q, rw later found)
]

pub deactivate_token-known :
    (token : String) (s : PushStore)
    → any (of_token token) s.rows ≡ true
    → deactivate_token token s
      ≡ (ok tt, record s { rows = update_where (of_token token) deactivated s.rows })
unfolding deactivate_token
deactivate_token-known token s h =
    let (r, found) = known_row token s.rows h in rw (found, deactivate_token) refl

module _ (token : String) (s : PushStore) (known : any (of_token token) s.rows ≡ true) where
  pub count_sent-Ended :
      (firebase : List String → String → Delivery) (d : Delivery) (counts : ℕ × ℕ)
      → Ended (count_sent firebase token d counts s) (suc (counts.0 + counts.1)) s.sent s.rows
  unfolding ◌>>=◌
  count_sent-Ended firebase delivered (sent, off) = record {
    counts = (suc sent, off);
    after = s;
    returned = refl;
    bounded = omega arith;
    messages = refl;
    still_known = λ t. refl;
  }
  count_sent-Ended firebase (undelivered none) (sent, off) = record {
    counts = (sent, off);
    after = s;
    returned = refl;
    bounded = omega arith;
    messages = refl;
    still_known = λ t. refl;
  }
  count_sent-Ended firebase (undelivered (some code)) (sent, off) =
      elim (Bool-cases (is_invalid_code code)) [
        | inl invalid ↦ record {
          counts = (sent, suc off);
          after = record s { rows = update_where (of_token token) deactivated s.rows };
          returned = rw (invalid, deactivate_token-known token s known) refl;
          bounded = omega arith;
          messages = refl;
          still_known = λ t. any-deactivated t token s.rows;
        }
        | inr kept ↦ record {
          counts = (sent, off);
          after = s;
          returned = rw kept refl;
          bounded = omega arith;
          messages = refl;
          still_known = λ t. refl;
        }
      ]

module _ (firebase : List String → String → Delivery) where
  pub All-IsKnown :
      (rows after : List DeviceToken) (rs : List DeviceToken)
      → ((token : String) → any (of_token token) after ≡ any (of_token token) rows)
      → All (IsKnown rows) rs
      → All (IsKnown after) rs
  All-IsKnown rows after [] same h = tt
  All-IsKnown rows after (r ∷ rs) same (h, hs) =
      (same r.fcm_token ∙ h, All-IsKnown rows after rs same hs)

  pub send_to_tokens-Ended :
      (rs : List DeviceToken) (counts : ℕ × ℕ) (s : PushStore)
      → All (IsKnown s.rows) rs
      → Ended
          (send_to_tokens firebase rs counts s)
          (length rs + (counts.0 + counts.1))
          (tried rs s.sent)
          s.rows
  unfolding send_to_tokens send ◌>>=◌
  send_to_tokens-Ended [] counts s h = record {
    counts = counts;
    after = s;
    returned = refl;
    bounded = omega arith;
    messages = refl;
    still_known = λ t. refl;
  }
  send_to_tokens-Ended (r ∷ rs) counts s (h, hs) =
      let d = firebase s.sent r.fcm_token in
      let sending : PushStore = record s { sent = r.fcm_token ∷ s.sent } in
      let one = count_sent-Ended r.fcm_token sending h firebase d counts in
      let known = All-IsKnown s.rows one.after.rows rs one.still_known hs in
      let more = send_to_tokens-Ended rs one.counts one.after known in
      record {
        counts = more.counts;
        after = more.after;
        returned = rw one.returned more.returned;
        bounded = omega (arith, one.bounded, more.bounded);
        messages = more.messages ∙ ap (tried rs) one.messages;
        still_known = λ t. more.still_known t ∙ one.still_known t;
      }

  pub select-IsKnown :
      (user : ℕ) (before rs : List DeviceToken)
      → ((q : DeviceToken) → IsKnown rs q → IsKnown before q)
      → All (IsKnown before) (select (is_active_of user) rs)
  unfolding select any
  select-IsKnown user before [] lift = tt
  select-IsKnown user before (r ∷ rs) lift = elim (Bool-cases (is_active_of user r)) [
    | inl active ↦ rw active (
      lift r (ground (arith, eq_iff r.fcm_token r.fcm_token)),
      select-IsKnown user before rs (λ q h. lift q (ground (arith, h))),
    )
    | inr other ↦ rw other (select-IsKnown user before rs (λ q h. lift q (ground (arith, h))))
  ]

-- The report of a message to a user.
pub record IsReport (firebase : List String → String → Delivery) (user : ℕ) (s : PushStore)
    : Type 0 where
  pub result : NotificationSendResult
  pub after : PushStore
  pub returned : send_to_user firebase user s ≡ (ok result, after)
  pub found : result.tokens_found ≡ length (select (is_active_of user) s.rows)
  pub bounded : result.tokens_sent + result.tokens_deactivated ≤ result.tokens_found
  pub messages : after.sent ≡ tried (select (is_active_of user) s.rows) s.sent

-- A message to a user ends with a report, whatever Firebase answers: every active token of the user
-- is tried exactly once, no other token is, and the tokens that were sent to or deactivated are
-- together no more than those found.
pub send_to_user-IsReport :
    (firebase : List String → String → Delivery) (user : ℕ) (s : PushStore)
    → IsReport firebase user s
unfolding send_to_user find_active_tokens_by_user_id ◌>>=◌
send_to_user-IsReport firebase user s =
    let rs = select (is_active_of user) s.rows in
    let end =
      send_to_tokens-Ended firebase rs (0, 0) s
        (select-IsKnown firebase user s.rows s.rows (λ q h. h)) in
    record {
      result = record {
        tokens_found = length rs;
        tokens_sent = end.counts.0;
        tokens_deactivated = end.counts.1;
      };
      after = end.after;
      returned = rw end.returned refl;
      found = refl;
      bounded = omega (arith, end.bounded);
      messages = end.messages;
    }
