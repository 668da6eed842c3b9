-- ===== src/SipToken/Tests.antt =====
-- The theorems on the access token at a bank that refuses the first token.
use banking_mobile_backend.Prelude.{
  ℕ, ◌+◌, ◌≤◌, ◌≡◌, refl, true, none, some, [], str_eq, if◌then◌else◌, length, ok, err,
  unauthorized, ◌<◌, ◌>>=◌, try_catch,
}
use banking_mobile_backend.SipToken.{
  TokenCache, SipGenerateTokenResponseDto, data_of, failed, SipHost, SipClient, generate_qr,
  with_token, get_token, post_qr, refresh_token, set_cache, post_token, sip_result, sip_error,
}
use banking_mobile_backend.SipToken.Cached.{HasIssued, generate_qr-HasIssued}
use banking_mobile_backend.SipToken.Renewed.{generate_qr-renews}
use banking_mobile_backend.SipToken.Retry.{token_posts, qr_posts, generate_qr-bounds}

abbrev fresh_answer : SipGenerateTokenResponseDto
fresh_answer = record { accepted = true; mensaje = ""; token = some "new" }

abbrev host : SipHost ℕ ℕ
host = record {
  clock = λ calls. 1000 + length calls;
  ttl_seconds = 3300;
  token_answer = λ calls. ok fresh_answer;
  qr_answer = λ calls token request.
      if str_eq token "new"
      then data_of (record { objeto = some (request + 1) })
      else failed (some 401) none;
}

abbrev old_cache : TokenCache
old_cache = record { token = "old"; expires_at = 2000 }

abbrev client : SipClient ℕ
client = record { cache = some old_cache; calls = [] }

abbrev empty : SipClient ℕ
empty = record { cache = none; calls = [] }

generate_qr-HasIssued_example : HasIssued host (generate_qr host 7 empty).1
generate_qr-HasIssued_example =
    generate_qr-HasIssued host 7 empty (record { cached = λ c same. cc same })

generate_qr-bounds_example :
    (token_posts (generate_qr host 7 client).1.calls ≤ 2 + token_posts client.calls)
    × (qr_posts (generate_qr host 7 client).1.calls ≤ 2 + qr_posts client.calls)
generate_qr-bounds_example = generate_qr-bounds host 7 client

-- A bank that refuses every token.
abbrev refusing : SipHost ℕ ℕ
refusing = record host { qr_answer = λ calls token request. failed (some 401) none }

refused_run :
    (generate_qr refusing 7 client).0 ≡ err (unauthorized "SIP: token expired or invalid.")
unfolding generate_qr with_token get_token post_qr refresh_token set_cache post_token sip_result
    sip_error try_catch ◌>>=◌
refused_run = refl

generate_qr-renews_example :
    token_posts client.calls < token_posts (generate_qr refusing 7 client).1.calls
generate_qr-renews_example = generate_qr-renews refusing 7 client refused_run
