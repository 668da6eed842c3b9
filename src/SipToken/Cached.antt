-- ===== src/SipToken/Cached.antt =====
-- What the cache of the access token holds.
use banking_mobile_backend.Prelude.{
  String, ◌*◌, ◌+◌, ◌≡◌, refl, ap, Option, none, some, List, [], ◌∷◌, ◌++◌, Result-cases,
  Option-cases, inl, inr, Error, ok, err, Action, ◌>>=◌,
}
use banking_mobile_backend.Prelude.Keeps.{Keeps, Keeps-bind, Keeps-or_throw, keeps_rules}
use banking_mobile_backend.SipToken.{
  TokenCache, SipGenerateTokenResponseDto, SipCall, SipHost, SipClient, usable_token,
  generate_token, set_cache, post_token, post_qr, refresh_token, get_token, token_or_refresh,
  retry_unauthorized, with_token, generate_qr,
}

module _ {R Q : Type 0} (host : SipHost R Q) where
  -- A token of the cache: the call that gave it, and the expiry counted from its answer.
  pub record IsIssued (c : TokenCache) (calls : List (SipCall R)) : Type 0 where
    pub newer : List (SipCall R)
    pub older : List (SipCall R)
    pub body : SipGenerateTokenResponseDto
    pub asked : calls ≡ newer ++ (generate_token ∷ older)
    pub answered : host.token_answer older ≡ ok body
    pub usable : usable_token body ≡ some c.token
    pub expiry : c.expires_at ≡ host.clock (generate_token ∷ older) + host.ttl_seconds * 1000

  pub record HasIssued (s : SipClient R) : Type 0 where
    pub cached : (c : TokenCache) → s.cache ≡ some c → IsIssued c s.calls

  abbrev after_answer : String → List (SipCall R) → SipClient R
  after_answer token calls = record {
    cache = some (record {
      token = token;
      expires_at = host.clock (generate_token ∷ calls) + host.ttl_seconds * 1000;
    });
    calls = generate_token ∷ calls;
  }

  -- A refresh that was answered with a token.
  pub refresh_token-answered :
      (s : SipClient R) (body : SipGenerateTokenResponseDto) (token : String)
      → host.token_answer s.calls ≡ ok body
      → usable_token body ≡ some token
      → refresh_token host s ≡ (ok token, after_answer token s.calls)
  unfolding refresh_token set_cache post_token ◌>>=◌
  refresh_token-answered s body token answered usable = rw (answered, usable) refl

  after_answer-HasIssued :
      (calls : List (SipCall R)) (body : SipGenerateTokenResponseDto) (token : String)
      → host.token_answer calls ≡ ok body
      → usable_token body ≡ some token
      → HasIssued (after_answer token calls)
  after_answer-HasIssued calls body token answered usable = record {
    cached = λ c same. record {
      newer = [];
      older = calls;
      body = body;
      asked = refl;
      answered = answered;
      usable = cc (usable, same);
      expiry = cc same;
    };
  }

  empty-HasIssued : (s : SipClient R) → s.cache ≡ none → HasIssued s
  empty-HasIssued s empty = record { cached = λ c same. cc (empty, same) }

  -- A refresh that failed leaves no token.
  pub refresh_token-empty :
      (s : SipClient R) (e : Error)
      → (refresh_token host s).0 ≡ err e
      → (refresh_token host s).1.cache ≡ none
  unfolding refresh_token set_cache post_token ◌>>=◌
  refresh_token-empty s e failed = elim (Result-cases (host.token_answer s.calls)) [
    | inl (x, h) ↦ rw (h, refresh_token) refl
    | inr (body, h) ↦ elim (Option-cases (usable_token body)) [
      | inl missing ↦ rw (h, missing, refresh_token) refl
      | inr (token, usable) ↦
          cc (ap (λ t. t.0) (refresh_token-answered s body token h usable), failed)
    ]
  ]

  refreshed : (s : SipClient R) → HasIssued (refresh_token host s).1
  unfolding refresh_token set_cache post_token ◌>>=◌
  refreshed s = elim (Result-cases (host.token_answer s.calls)) [
    | inl (x, h) ↦ rw (h, refresh_token) (empty-HasIssued _ refl)
    | inr (body, h) ↦ elim (Option-cases (usable_token body)) [
      | inl missing ↦ rw (h, missing, refresh_token) (empty-HasIssued _ refl)
      | inr (t, usable) ↦
          rw (refresh_token-answered s body t h usable)
            (after_answer-HasIssued s.calls body t h usable)
    ]
  ]

  refresh_token-HasIssued : Keeps HasIssued (refresh_token host)
  refresh_token-HasIssued = record { at = λ s kept. refreshed s }

  post_qr-HasIssued : (request : R) (token : String) → Keeps HasIssued (post_qr host request token)
  unfolding post_qr
  post_qr-HasIssued request token = record {
    at = λ s kept. record {
      cached = λ c same.
          let h = kept.cached c same in
          record {
            newer = SipCall.genera_qr token request ∷ h.newer;
            older = h.older;
            body = h.body;
            asked = ap (λ cs. SipCall.genera_qr token request ∷ cs) h.asked;
            answered = h.answered;
            usable = h.usable;
            expiry = h.expiry;
          };
    };
  }

  token_or_refresh-HasIssued : (o : Option String) → Keeps HasIssued (token_or_refresh host o)
  token_or_refresh-HasIssued none = refresh_token-HasIssued
  token_or_refresh-HasIssued (some token) = search (keeps_rules)

  module _ {A : Type 0} (fn : String → Action (SipClient R) A)
      (kept : (token : String) → Keeps HasIssued (fn token)) where
    retry-HasIssued : (e : Error) → Keeps HasIssued (retry_unauthorized host fn e)
    retry-HasIssued (Error.unauthorized m) =
        Keeps-bind (refresh_token host) fn refresh_token-HasIssued kept
    retry-HasIssued _ = search (keeps_rules)

    with_token-HasIssued : Keeps HasIssued (with_token host fn)
    unfolding with_token get_token
    with_token-HasIssued =
        search (keeps_rules, token_or_refresh-HasIssued, kept, retry-HasIssued) depth 12

  -- Whatever the calls answer, after a request for a QR code the cache is empty or holds a token
  -- that the bank gave in a recorded call, with the expiry counted from the answer to that call,
  -- when it did so before.
  pub generate_qr-HasIssued :
      (request : R) (s : SipClient R) → HasIssued s → HasIssued (generate_qr host request s).1
  unfolding generate_qr
  generate_qr-HasIssued request s kept =
      (Keeps-bind (with_token host (post_qr host request)) _
          (with_token-HasIssued (post_qr host request) (post_qr-HasIssued request))
          (λ body. Keeps-or_throw body.objeto _)).at
        s kept
