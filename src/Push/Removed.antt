-- ===== src/Push/Removed.antt =====
-- Which tokens a message to a user makes inactive.
use banking_mobile_backend.Prelude.{
  ℕ, String, suc, ◌≡◌, refl, subst, ap, true, false, ◌&&◌, none, some, List, [], ◌∷◌, All,
  Bool-cases, Option-cases, inl, inr, find, update_where, select, any, arith, eq_iff, ◌>>=◌, ◌>>◌,
  pure,
}
use banking_mobile_backend.Prelude.Keeps.{Keeps, keeps_rules}
use banking_mobile_backend.Push.{
  DeviceToken, PushStore, Delivery, delivered, undelivered, of_token, is_active_of, deactivated,
  is_invalid, deactivate_token, find_active_tokens_by_user_id, send, count_sent, send_to_tokens,
  send_to_user,
}
use banking_mobile_backend.Push.Delivered.{
  IsKnown, count_sent-Ended, All-IsKnown, select-IsKnown, send_to_tokens-Ended,
}

-- No row with the token is active.
abbrev pub IsOff : String → PushStore → Type 0
IsOff token s = All (λ r. of_token token r ≡ true → r.is_active ≡ false) s.rows

module _ (token : String) where
  abbrev Off : DeviceToken → Type 0
  Off r = of_token token r ≡ true → r.is_active ≡ false

  Off-absent : (rows : List DeviceToken) → find (of_token token) rows ≡ none → All Off rows
  unfolding find
  Off-absent [] h = tt
  Off-absent (r ∷ rs) h = (λ same. ground (arith, same, h), Off-absent rs (ground (arith, h)))

  Off-update : (rows : List DeviceToken) → All Off (update_where (of_token token) deactivated rows)
  unfolding update_where
  Off-update [] = tt
  Off-update (r ∷ rs) = elim (Bool-cases (of_token token r)) [
    | inl same ↦ rw same (λ _. refl, Off-update rs)
    | inr other ↦ rw other (λ same. cc (same, other), Off-update rs)
  ]

  Off-kept :
      (other : String) (rows : List DeviceToken)
      → All Off rows
      → All Off (update_where (of_token other) deactivated rows)
  unfolding update_where
  Off-kept other [] h = tt
  Off-kept other (r ∷ rs) (h, hs) = elim (Bool-cases (of_token other r)) [
    | inl same ↦ rw same (λ _. refl, Off-kept other rs hs)
    | inr different ↦ rw different (h, Off-kept other rs hs)
  ]

  deactivate_token-IsOff :
      (counts : ℕ × ℕ) (s : PushStore) → IsOff token ((deactivate_token token >> pure counts) s).1
  unfolding deactivate_token ◌>>=◌
  deactivate_token-IsOff counts s = elim (Option-cases (find (of_token token) s.rows)) [
    | inl missing ↦ rw (missing, deactivate_token) (Off-absent s.rows missing)
    | inr (r, found) ↦ rw (found, deactivate_token) (Off-update s.rows)
  ]

  deactivate_token-kept : (other : String) → Keeps (IsOff token) (deactivate_token other)
  unfolding deactivate_token
  deactivate_token-kept other = record {
    at = λ s h. elim (Option-cases (find (of_token other) s.rows)) [
      | inl missing ↦ rw (missing, deactivate_token) h
      | inr (r, found) ↦ rw (found, deactivate_token) (Off-kept other s.rows h)
    ];
  }

  module _ (firebase : List String → String → Delivery) where
    send-kept : (other : String) → Keeps (IsOff token) (send firebase other)
    unfolding send
    send-kept other = record { at = λ s h. h }

    count_sent-kept :
        (other : String) (d : Delivery) (counts : ℕ × ℕ)
        → Keeps (IsOff token) (count_sent firebase other d counts)
    count_sent-kept other delivered (sent, off) = search (keeps_rules)
    count_sent-kept other (undelivered none) (sent, off) = search (keeps_rules)
    count_sent-kept other (undelivered (some code)) (sent, off) =
        search (keeps_rules, deactivate_token-kept)

    send_to_tokens-kept :
        (rs : List DeviceToken) (counts : ℕ × ℕ)
        → Keeps (IsOff token) (send_to_tokens firebase rs counts)
    unfolding send_to_tokens
    send_to_tokens-kept [] counts = search (keeps_rules)
    send_to_tokens-kept (r ∷ rs) counts =
        search (keeps_rules, send-kept, count_sent-kept, send_to_tokens-kept rs)

    count_sent-IsOff :
        (d : Delivery) (counts : ℕ × ℕ) (s : PushStore)
        → is_invalid d ≡ true
        → IsOff token (count_sent firebase token d counts s).1
    count_sent-IsOff delivered (sent, off) s h = cc h
    count_sent-IsOff (undelivered none) (sent, off) s h = cc h
    count_sent-IsOff (undelivered (some code)) (sent, off) s h =
        rw h (deactivate_token-IsOff (sent, suc off) s)

    module _ (refused : (sent : List String) → is_invalid (firebase sent token) ≡ true) where
      first-IsOff :
          (x : String) (counts : ℕ × ℕ) (before : List String) (s : PushStore)
          → x ≡ token
          → IsOff token (count_sent firebase x (firebase before x) counts s).1
      first-IsOff x counts before s same =
          rw same (count_sent-IsOff (firebase before token) counts s (refused before))

      send_to_tokens-IsOff :
          (rs : List DeviceToken) (counts : ℕ × ℕ) (s : PushStore)
          → All (IsKnown s.rows) rs
          → any (of_token token) rs ≡ true
          → IsOff token (send_to_tokens firebase rs counts s).1
      unfolding send_to_tokens send any ◌>>=◌
      send_to_tokens-IsOff [] counts s known h = cc h
      send_to_tokens-IsOff (r ∷ rs) counts s (k, ks) h =
          let d = firebase s.sent r.fcm_token in
          let sending : PushStore = record s { sent = r.fcm_token ∷ s.sent } in
          let one = count_sent-Ended r.fcm_token sending k firebase d counts in
          rw one.returned (elim (Bool-cases (of_token token r)) [
            | inl here ↦ (send_to_tokens-kept rs one.counts).at one.after (
                subst (IsOff token) (ap (λ t. t.1) one.returned) (
                  first-IsOff r.fcm_token counts s.sent sending
                    ((eq_iff r.fcm_token token).0 here)))
            | inr later ↦
                send_to_tokens-IsOff rs one.counts one.after
                  (All-IsKnown firebase s.rows one.after.rows rs one.still_known ks)
                  (ground (arith, later, h))
          ])

      any-select :
          (user : ℕ) (rows : List DeviceToken)
          → any (λ r. is_active_of user r && of_token token r) rows ≡ true
          → any (of_token token) (select (is_active_of user) rows) ≡ true
      unfolding any select
      any-select user [] h = h
      any-select user (r ∷ rs) h = elim (Bool-cases (is_active_of user r)) [
        | inl active ↦ elim (Bool-cases (of_token token r)) [
          | inl here ↦ rw (active, here) refl
          | inr other ↦ rw (active, other) (any-select user rs (rw (active, other) at h))
        ]
        | inr idle ↦ rw idle (any-select user rs (rw idle at h))
      ]

      -- A token of the user that Firebase refuses as invalid whenever it is tried has no active row
      -- after a message to the user, whatever happens to the user's other tokens.
      pub send_to_user-IsOff :
          (user : ℕ) (s : PushStore)
          → any (λ r. is_active_of user r && of_token token r) s.rows ≡ true
          → IsOff token (send_to_user firebase user s).1
      unfolding send_to_user find_active_tokens_by_user_id ◌>>=◌
      send_to_user-IsOff user s h =
          let rs = select (is_active_of user) s.rows in
          let known = select-IsKnown firebase user s.rows s.rows (λ q x. x) in
          let end = send_to_tokens-Ended firebase rs (0, 0) s known in
          rw end.returned (
            subst (IsOff token) (ap (λ t. t.1) end.returned)
              (send_to_tokens-IsOff rs (0, 0) s known (any-select user s.rows h)))
