-- ===== src/SipToken/Renewed.antt =====
-- Requests for a QR code that end as unauthorized.
use banking_mobile_backend.Prelude.{
  ℕ, String, suc, ◌≤◌, ◌<◌, ◌≡◌, ◌≢◌, refl, sym, ◌∙◌, none, some, Option, ◌∷◌, Option-cases,
  Result-cases, inl, inr, Error, unauthorized, type_error, ok, err, Result, Action, ◌>>=◌,
  try_catch, throw, or_throw, continue, arith,
}
use banking_mobile_backend.Prelude.Keeps.{Keeps, Keeps-bind, Keeps-or_throw, keeps_rules}
use banking_mobile_backend.SipToken.{
  SipGenerateQrResponseDto, SipHost, SipClient, genera_qr, set_cache, post_token, post_qr,
  sip_result, refresh_token, get_token, valid_token, retry_unauthorized, with_token, generate_qr,
}
use banking_mobile_backend.SipToken.Retry.{token_posts}

module _ {R Q : Type 0} (host : SipHost R Q) (request : R) (n : ℕ) where
  -- More than `n` tokens were asked for.
  abbrev Renewed : SipClient R → Type 0
  Renewed s = suc n ≤ token_posts s.calls

  refresh_token-Renewed :
      (s : SipClient R) → n ≤ token_posts s.calls → Renewed (refresh_token host s).1
  unfolding refresh_token set_cache post_token ◌>>=◌
  refresh_token-Renewed s h = ground (arith, h)

  refresh_token-kept : Keeps Renewed (refresh_token host)
  refresh_token-kept = record { at = λ s h. refresh_token-Renewed s (omega (arith, h)) }

  post_qr-kept : (token : String) → Keeps Renewed (post_qr host request token)
  unfolding post_qr
  post_qr-kept token = record { at = λ s h. h }

  retry-kept : (e : Error) → Keeps Renewed (retry_unauthorized host (post_qr host request) e)
  retry-kept (Error.unauthorized m) =
      Keeps-bind (refresh_token host) (post_qr host request) refresh_token-kept post_qr-kept
  retry-kept _ = search keeps_rules

  call-kept :
      (token : String)
      → Keeps Renewed
          (try_catch (post_qr host request token) (retry_unauthorized host (post_qr host request)))
  call-kept token = search (keeps_rules, post_qr-kept, retry-kept)

  continued :
      {A B : Type 0} (t : Result A × SipClient R) (f : A → Action (SipClient R) B)
      → Renewed t.1
      → ((a : A) → Keeps Renewed (f a))
      → Renewed (continue t.0 f t.1).1
  continued (ok a, u) f h k = (k a).at u h
  continued (err e, u) f h k = h

  bind-after :
      {A B : Type 0} (m : Action (SipClient R) A) (f : A → Action (SipClient R) B) (s : SipClient R)
      → Renewed (m s).1
      → ((a : A) → Keeps Renewed (f a))
      → Renewed ((m >>= f) s).1
  unfolding ◌>>=◌
  bind-after m f s h k = continued (m s) f h k

  abbrev asked : Action (SipClient R) (SipGenerateQrResponseDto Q)
  asked = with_token host (post_qr host request)

  generate-after : (s : SipClient R) → Renewed (asked s).1 → Renewed (generate_qr host request s).1
  unfolding generate_qr
  generate-after s h = bind-after asked _ s h (λ body. Keeps-or_throw body.objeto _)

  generate-fails :
      (s u : SipClient R) (e : Error)
      → asked s ≡ (err e, u)
      → (generate_qr host request s).0 ≡ err e
  unfolding generate_qr ◌>>=◌
  generate-fails s u e run = rw (run, ◌>>=◌) refl

  generate-returns :
      (s u : SipClient R) (body : SipGenerateQrResponseDto Q)
      → asked s ≡ (ok body, u)
      → (generate_qr host request s).0
        ≡ (or_throw body.objeto
            (type_error "Cannot read properties of undefined (reading 'idQr')")
            u).0
  unfolding generate_qr ◌>>=◌
  generate-returns s u body run = rw (run, ◌>>=◌) refl

  code-allowed :
      (o : Option Q) (u : SipClient R) (m text : String)
      → (or_throw o (type_error text) u).0 ≢ err (unauthorized m)
  unfolding or_throw
  code-allowed none u m text h = cc h
  code-allowed (some q) u m text h = cc h

  asked-missing :
      (s : SipClient R)
      → valid_token host (host.clock s.calls) s.cache ≡ none
      → n ≤ token_posts s.calls
      → Renewed (asked s).1
  unfolding with_token get_token ◌>>=◌
  asked-missing s missing h =
      rw missing (bind-after (refresh_token host) _ s (refresh_token-Renewed s h) call-kept)

  -- The call with the cached token.
  asked-cached :
      (s : SipClient R) (token : String)
      → valid_token host (host.clock s.calls) s.cache ≡ some token
      → asked s
        ≡ try_catch (post_qr host request token) (retry_unauthorized host (post_qr host request)) s
  unfolding with_token get_token ◌>>=◌
  asked-cached s token valid = rw (valid, get_token) refl

  abbrev called : String → SipClient R → SipClient R
  called token s = record s { calls = genera_qr token request ∷ s.calls }

  asked-allowed :
      (s : SipClient R) (token : String) (body : SipGenerateQrResponseDto Q)
      → valid_token host (host.clock s.calls) s.cache ≡ some token
      → sip_result (host.qr_answer s.calls token request) ≡ ok body
      → asked s ≡ (ok body, called token s)
  unfolding post_qr try_catch
  asked-allowed s token body valid answer = rw (asked-cached s token valid, answer) refl

  asked-refused :
      (s : SipClient R) (token : String) (e : Error)
      → valid_token host (host.clock s.calls) s.cache ≡ some token
      → sip_result (host.qr_answer s.calls token request) ≡ err e
      → asked s ≡ retry_unauthorized host (post_qr host request) e (called token s)
  unfolding post_qr try_catch
  asked-refused s token e valid answer = rw (asked-cached s token valid, answer) refl

  -- The refused call is repeated with a new token, or its error is the one that is thrown.
  retried :
      (e : Error) (s u : SipClient R) {m : String}
      → n ≤ token_posts u.calls
      → asked s ≡ retry_unauthorized host (post_qr host request) e u
      → (generate_qr host request s).0 ≡ err (unauthorized m)
      → Renewed (generate_qr host request s).1
  unfolding throw
  retried (Error.unauthorized _) s u h same ends = generate-after s (
      rw same (
        bind-after (refresh_token host) (post_qr host request) u (refresh_token-Renewed u h)
          post_qr-kept))
  retried e s u h same ends = cc (generate-fails s u e same, ends)

module _ {R Q : Type 0} (host : SipHost R Q) (request : R) where
  -- A request for a QR code that ends as unauthorized has asked the bank for a new token.
  pub generate_qr-renews :
      (s : SipClient R) {m : String}
      → (generate_qr host request s).0 ≡ err (unauthorized m)
      → token_posts s.calls < token_posts (generate_qr host request s).1.calls
  generate_qr-renews s {m} ends =
      let n = token_posts s.calls in
      elim (Option-cases (valid_token host (host.clock s.calls) s.cache)) [
        | inl missing ↦
            generate-after host request n s (asked-missing host request n s missing (omega arith))
        | inr (token, valid) ↦
            elim (Result-cases (sip_result (host.qr_answer s.calls token request))) [
              | inl (e, refused) ↦
                  retried host request n e s (called host request n token s) (omega arith)
                    (asked-refused host request n s token e valid refused) ends
              | inr (body, answer) ↦ absurd (
                  code-allowed host request n body.objeto (called host request n token s) m _ (
                    sym (
                      generate-returns host request n s _ body
                        (asked-allowed host request n s token body valid answer))
                    ∙ ends))
            ]
      ]
