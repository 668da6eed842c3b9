-- ===== src/SipToken.antt =====
-- src/services/sip.auth.service.ts, src/services/sip.bmsc.service.ts and the answers' errors of
-- src/api/sip.instance.ts: the access token of the bank's interface, its cache, and the one retry.
pub mod Cached
pub mod Retry
pub mod Renewed
mod Tests
use Prim.Native.String.{◌++◌}
use banking_mobile_backend.Prelude.{
  ℕ, String, ◌*◌, ◌+◌, Bool, true, false, Option, none, some, List, ◌∷◌, or_else, ltb, ◌==◌,
  if◌then◌else◌, str_eq, Error, bad_request, unauthorized, internal_server, type_error, Result, ok,
  err, Action, ◌>>=◌, ◌>>◌, pure, throw, gets, or_throw, modify, try_catch,
}

pub record TokenCache : Type 0 where
  pub token : String
  pub expires_at : ℕ

-- `codigo` is 'OK' when `accepted` holds; `token` is that of `objeto`, when it is there.
pub record SipGenerateTokenResponseDto : Type 0 where
  pub accepted : Bool
  pub mensaje : String
  pub token : Option String

-- The body of the answer to a request for a code; `codigo` and `mensaje` are not read.
pub record SipGenerateQrResponseDto (Q : Type 0) : Type 0 where
  pub objeto : Option Q

pub data SipCall (R : Type 0) : Type 0 where
  generate_token : SipCall R
  genera_qr : (token : String) (request : R) → SipCall R

-- A response of the interface: its data, or the status and the message of a failure.
pub data HttpAnswer (A : Type 0) : Type 0 where
  data_of : A → HttpAnswer A
  failed : (status : Option ℕ) (message : Option String) → HttpAnswer A

-- What answers the calls, and the clock, in milliseconds; each by the calls made so far.
pub record SipHost (R Q : Type 0) : Type 0 where
  pub clock : List (SipCall R) → ℕ
  pub ttl_seconds : ℕ
  pub token_answer : List (SipCall R) → Result SipGenerateTokenResponseDto
  pub qr_answer : List (SipCall R) → String → R → HttpAnswer (SipGenerateQrResponseDto Q)

pub record SipClient (R : Type 0) : Type 0 where
  pub cache : Option TokenCache
  pub calls : List (SipCall R)

unfoldable pub sip_error : Option ℕ → Option String → Error
sip_error none message = internal_server (or_else message "SIP unknown error")
sip_error (some status) message =
    if status == 400
    then bad_request "SIP: invalid request parameters."
    else if status == 401
    then unauthorized "SIP: token expired or invalid."
    else if status == 403
    then unauthorized "SIP: access denied."
    else if status == 500
    then internal_server "SIP: internal server error."
    else internal_server (or_else message "SIP unknown error")

unfoldable pub sip_result : {A : Type 0} → HttpAnswer A → Result A
unfolding sip_error
sip_result (data_of a) = ok a
sip_result (failed status message) = err (sip_error status message)

-- `body.codigo !== 'OK' || !body.objeto?.token` refuses; the empty token counts as absent.
abbrev pub usable_token : SipGenerateTokenResponseDto → Option String
usable_token body =
    if body.accepted
    then elim body.token [ none ↦ none | some t ↦ if str_eq t "" then none else some t ]
    else none

module _ {R Q : Type 0} (host : SipHost R Q) where
  unfoldable pub set_cache : Option TokenCache → Action (SipClient R) (Unit {0})
  set_cache value = modify (λ s. record s { cache = value })

  unfoldable pub post_token : Action (SipClient R) SipGenerateTokenResponseDto
  post_token s = (host.token_answer s.calls, record s { calls = generate_token ∷ s.calls })

  unfoldable pub post_qr : R → String → Action (SipClient R) (SipGenerateQrResponseDto Q)
  unfolding sip_result
  post_qr request token s = (
    sip_result (host.qr_answer s.calls token request),
    record s { calls = genera_qr token request ∷ s.calls },
  )

  unfoldable pub refresh_token : Action (SipClient R) String
  refresh_token = do
    set_cache none
    body ← post_token
    token ←
        or_throw (usable_token body)
          (internal_server ("SIP authentication failed: " ++ body.mensaje))
    now ← gets (λ s. host.clock s.calls)
    set_cache (some (record { token = token; expires_at = now + host.ttl_seconds * 1000 }))
    pure token

  -- The cached token, when its expiry is after the time.
  abbrev pub valid_token : ℕ → Option TokenCache → Option String
  valid_token now none = none
  valid_token now (some c) = if ltb now c.expires_at then some c.token else none

  abbrev pub token_or_refresh : Option String → Action (SipClient R) String
  token_or_refresh (some token) = pure token
  token_or_refresh none = refresh_token

  unfoldable pub get_token : Action (SipClient R) String
  get_token = do
    cached ← gets (λ s. valid_token (host.clock s.calls) s.cache)
    token_or_refresh cached

  abbrev pub retry_unauthorized :
      {A : Type 0} → (String → Action (SipClient R) A) → Error → Action (SipClient R) A
  retry_unauthorized fn (unauthorized m) = refresh_token >>= fn
  retry_unauthorized fn e = throw e

  unfoldable pub with_token :
      {A : Type 0} → (String → Action (SipClient R) A) → Action (SipClient R) A
  with_token fn = do token ← get_token; try_catch (fn token) (retry_unauthorized fn)

  unfoldable pub generate_qr : R → Action (SipClient R) Q
  generate_qr request = do
    body ← with_token (post_qr request)
    or_throw body.objeto (type_error "Cannot read properties of undefined (reading 'idQr')")
