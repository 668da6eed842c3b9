-- ===== src/SipToken/Retry.antt =====
-- How often a request for a QR code calls the bank.
use banking_mobile_backend.Prelude.{
  ℕ, String, suc, ◌+◌, ◌≤◌, List, [], ◌∷◌, Error, Action, ◌>>=◌, try_catch, throw, arith,
}
use banking_mobile_backend.Prelude.Triple.{
  Triple, Triple-after, Triple-bind, Triple-both, Triple-weaken, Triple-try_catch, Triple-map,
  Triple-of_Keeps,
}
use banking_mobile_backend.Prelude.Keeps.{Keeps-or_throw}
use banking_mobile_backend.SipToken.{
  SipCall, SipHost, SipClient, generate_token, genera_qr, set_cache, post_token, post_qr,
  refresh_token, get_token, retry_unauthorized, with_token, generate_qr,
}

module _ {R : Type 0} where
  abbrev pub token_posts : List (SipCall R) → ℕ
  token_posts [] = 0
  token_posts (generate_token ∷ cs) = suc (token_posts cs)
  token_posts (genera_qr token request ∷ cs) = token_posts cs

  abbrev pub qr_posts : List (SipCall R) → ℕ
  qr_posts [] = 0
  qr_posts (generate_token ∷ cs) = qr_posts cs
  qr_posts (genera_qr token request ∷ cs) = suc (qr_posts cs)

  abbrev Within : ℕ → ℕ → SipClient R → Type 0
  Within tokens qrs s = (token_posts s.calls ≤ tokens) × (qr_posts s.calls ≤ qrs)

module _ {R Q : Type 0} (host : SipHost R Q) (i j k l : ℕ) (s : SipClient R) where
  refresh_token-Within : suc i ≤ k → j ≤ l → Within i j s → Within k l (refresh_token host s).1
  unfolding refresh_token set_cache post_token ◌>>=◌
  refresh_token-Within p q h = ground (arith, p, q, h.0, h.1)

  get_token-Within : suc i ≤ k → j ≤ l → Within i j s → Within k l (get_token host s).1
  unfolding get_token refresh_token set_cache post_token ◌>>=◌
  get_token-Within p q h = ground (arith, p, q, h.0, h.1)

  post_qr-Within :
      (request : R) (token : String)
      → i ≤ k
      → suc j ≤ l
      → Within i j s
      → Within k l (post_qr host request token s).1
  unfolding post_qr
  post_qr-Within request token p q h = ground (arith, p, q, h.0, h.1)

module _ {R A : Type 0} (i j k l m n : ℕ) (action : Action (SipClient R) A) where
  -- What an action spends, in front of others that spend more.
  spends :
      k ≤ m
      → l ≤ n
      → ((s : SipClient R) → Within i j s → Within k l (action s).1)
      → Triple (Within i j) action (λ _. Within k l) (Within m n)
  spends p q h =
      Triple-weaken (Within k l) (Within m n) action
        (λ s x. (omega (arith, p, x.0), omega (arith, q, x.1)))
        (Triple-both (Within i j) action (Within k l) h)

module _ {R Q : Type 0} (host : SipHost R Q) (request : R) (i j m n : ℕ) (tokens : suc (suc i) ≤ m)
    (qrs : suc (suc j) ≤ n) where
  abbrev Ends : {A : Type 0} → ℕ → ℕ → Action (SipClient R) A → Type 0
  Ends k l action = Triple (Within k l) action (λ _. Within m n) (Within m n)

  qr-Ends : (k l : ℕ) (token : String) → k ≤ m → suc l ≤ n → Ends k l (post_qr host request token)
  qr-Ends k l token p q =
      spends k l m n m n (post_qr host request token) (omega arith) (omega arith)
        (λ s. post_qr-Within host k l m n s request token p q)

  retry-Ends : (e : Error) → Ends (suc i) (suc j) (retry_unauthorized host (post_qr host request) e)
  unfolding throw
  retry-Ends (Error.unauthorized _) =
      Triple-bind (λ _. Within m n) (refresh_token host) (post_qr host request)
        (spends (suc i) (suc j) (suc (suc i)) (suc j) m n (refresh_token host) tokens (omega arith)
          (λ s.
            refresh_token-Within host (suc i) (suc j) (suc (suc i)) (suc j) s (omega arith)
              (omega arith)))
        (λ token. qr-Ends (suc (suc i)) (suc j) token tokens qrs)
  retry-Ends _ =
      Triple-both _ _ (Within m n) (λ s h. (omega (arith, tokens, h.0), omega (arith, qrs, h.1)))

  call-Ends :
      (token : String)
      → Ends
          (suc i)
          j
          (try_catch (post_qr host request token) (retry_unauthorized host (post_qr host request)))
  call-Ends token =
      Triple-try_catch (λ _. Within m n) (Within m n) (post_qr host request token)
        (retry_unauthorized host (post_qr host request))
        (Triple-map (λ _. Within m n) (Within (suc i) (suc j)) (post_qr host request token)
          (λ a s h. (omega (arith, tokens, h.0), omega (arith, qrs, h.1)))
          (spends (suc i) j (suc i) (suc j) (suc i) (suc j) (post_qr host request token)
            (omega arith) (omega arith)
            (λ s.
              post_qr-Within host (suc i) j (suc i) (suc j) s request token (omega arith)
                (omega arith))))
        retry-Ends

  with_token-Ends : Ends i j (with_token host (post_qr host request))
  unfolding with_token
  with_token-Ends =
      Triple-bind (λ _. Within m n) (get_token host) _
        (spends i j (suc i) j m n (get_token host) (omega arith) (omega arith)
          (λ s. get_token-Within host i j (suc i) j s (omega arith) (omega arith)))
        call-Ends

module _ {R Q : Type 0} (host : SipHost R Q) (request : R) where
  -- Whatever the calls answer, a request for a QR code asks for at most two tokens and calls the
  -- bank for a code at most twice.
  pub generate_qr-bounds :
      (s : SipClient R)
      → let after = (generate_qr host request s).1.calls in
        (token_posts after ≤ 2 + token_posts s.calls) × (qr_posts after ≤ 2 + qr_posts s.calls)
  unfolding generate_qr
  generate_qr-bounds s =
      let i = token_posts s.calls in
      let j = qr_posts s.calls in
      let most = Within (2 + i) (2 + j) in
      Triple-after most (generate_qr host request)
        (Triple-bind (λ _. most) (with_token host (post_qr host request)) _
          (with_token-Ends host request i j (2 + i) (2 + j) (omega arith) (omega arith))
          (λ body. Triple-of_Keeps most _ (Keeps-or_throw body.objeto _)))
        s (omega arith, omega arith)
