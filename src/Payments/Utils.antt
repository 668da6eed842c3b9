-- ===== src/Payments/Utils.antt =====
-- src/utils/payment.utils.ts: the provider's statuses, and the identifier in a webhook.
use Prim.Native.Char.{code}
use banking_mobile_backend.Prelude.{
  ℕ, String, Bool, true, false, ◌&&◌, ◌||◌, not, Option, none, some, List, [], ◌∷◌, ◌+◌, map, leb,
  ◌==◌, if◌then◌else◌, any,
}
use banking_mobile_backend.Payments.{
  PaymentStatus, pending, processing, completed, failed, cancelled, JsonField, text,
  ClipWebhookPayload, WebhookItem,
}

abbrev pub codes : String → List ℕ
codes String.[] = []
codes (String.◌∷◌ c s) = code c ∷ codes s

-- `toLowerCase`, on the letters of ASCII; no other letter becomes one of the words below.
unfoldable pub lower : ℕ → ℕ
lower c = if leb b'A' c && leb c b'Z' then c + 32 else c

unfoldable pub same_codes : List ℕ → List ℕ → Bool
same_codes [] [] = true
same_codes (c ∷ cs) (d ∷ ds) = c == d && same_codes cs ds
same_codes _ _ = false

unfoldable pub one_of : List ℕ → List String → Bool
unfolding any same_codes
one_of word words = any (λ w. same_codes word (codes w)) words

status_of_word : List ℕ → PaymentStatus
unfolding one_of
status_of_word word =
    if one_of word ("approved" ∷ "succeeded" ∷ "completed" ∷ [])
    then completed
    else if one_of word ("pending" ∷ "in_process" ∷ "authorized" ∷ [])
    then processing
    else if one_of word ("rejected" ∷ "failed" ∷ "declined" ∷ [])
    then failed
    else if one_of word ("cancelled" ∷ "canceled" ∷ [])
    then cancelled
    else pending

unfoldable pub map_clip_status_to_internal : Option String → PaymentStatus
unfolding status_of_word lower
map_clip_status_to_internal none = pending
map_clip_status_to_internal (some status) = status_of_word (map lower (codes status))

-- The white space that `trim` takes off.
unfoldable pub is_space : ℕ → Bool
is_space c =
    leb 9 c && leb c 13
    || c == 32
    || c == 0xa0
    || c == 0x1680
    || leb 0x2000 c && leb c 0x200a
    || c == 0x2028
    || c == 0x2029
    || c == 0x202f
    || c == 0x205f
    || c == 0x3000
    || c == 0xfeff

-- `candidate.trim().length > 0`
has_text : String → Bool
unfolding is_space any
has_text s = any (λ c. not (is_space c)) (codes s)

-- `typeof candidate === 'string' && candidate.trim().length > 0`
unfoldable pub text_of : Option JsonField → Option String
unfolding has_text
text_of (some (text s)) = if has_text s then some s else none
text_of _ = none

unfoldable pub first_text : List (Option JsonField) → Option String
unfolding text_of
first_text [] = none
first_text (c ∷ cs) = elim (text_of c) [ some s ↦ some s | none ↦ first_text cs ]

abbrev pub field_of : (WebhookItem → Option JsonField) → Option WebhookItem → Option JsonField
field_of f none = none
field_of f (some item) = f item

unfoldable pub extract_clip_webhook_payment_id : ClipWebhookPayload → Option String
unfolding first_text
extract_clip_webhook_payment_id payload = first_text (
    payload.provider_payment_id
    ∷ payload.payment_id
    ∷ payload.resource_id
    ∷ field_of (λ i. i.payment_id) payload.item
    ∷ field_of (λ i. i.id) payload.item
    ∷ field_of (λ i. i.payment_id) payload.content
    ∷ field_of (λ i. i.id) payload.content
    ∷ payload.id
    ∷ [])

unfoldable pub extract_clip_webhook_status : ClipWebhookPayload → Option String
unfolding first_text
extract_clip_webhook_status payload = first_text (
    payload.status
    ∷ field_of (λ i. i.status) payload.item
    ∷ field_of (λ i. i.status) payload.content
    ∷ [])
