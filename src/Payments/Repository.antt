-- ===== src/Payments/Repository.antt =====
-- src/repositories/payment.repository.ts: the queries on the `payments` table and the named locks.
use banking_mobile_backend.Prelude.{
  ℕ, String, Bool, true, false, ◌&&◌, ◌||◌, not, Option, none, some, List, [], ◌∷◌, ◌++◌, ◌+◌, ◌==◌,
  str_eq, if◌then◌else◌, database, ok, err, Action, gets, find, update_where, any, first_some,
}
use banking_mobile_backend.Payments.{
  Payment, PaymentStatus, Provider, clip, qrbmsc, RequestPayload, no_fields, card_request,
  ResponsePayload, ProviderPayment, ProviderRequest, ClipWebhookPayload, TopupPayload,
}
use banking_mobile_backend.Payments.Services.{Store, Lock}

abbrev pub same_provider : Provider → Provider → Bool
same_provider clip clip = true
same_provider qrbmsc qrbmsc = true
same_provider _ _ = false

-- A column that may be null equals a value.
abbrev pub is_value : Option String → String → Bool
is_value none v = false
is_value (some w) v = str_eq w v

abbrev pub has_id : ℕ → Payment → Bool
has_id id p = p.id == id

abbrev pub has_provider_id : Provider → String → Payment → Bool
has_provider_id provider key p =
    same_provider p.provider provider && is_value p.provider_payment_id key

abbrev pub no_payload : ResponsePayload
no_payload = record {
  provider_fields = none;
  qr_fields = none;
  reason = none;
  provider_payment = none;
  clip_webhook = none;
  topup = none;
  callback = none;
}

unfoldable pub get_payment_by_id : ℕ → Action Store (Option Payment)
get_payment_by_id id = gets (λ s. find (has_id id) s.payments)

unfoldable pub get_payment_by_provider_payment_id :
    Provider → String → Action Store (Option Payment)
get_payment_by_provider_payment_id provider key =
    gets (λ s. find (has_provider_id provider key) s.payments)

abbrev pub same_key : Provider → Option String → Provider → Option String → Bool
same_key provider none other_provider other = false
same_key provider (some key) other_provider other =
    same_provider other_provider provider && is_value other key

-- The row `p` has the provider's id of `q` (`uk_payments_provider_payment`).
abbrev pub clashes : Payment → Payment → Bool
clashes q p = same_key q.provider q.provider_payment_id p.provider p.provider_payment_id

-- So has another row than that of `id`.
abbrev pub taken : ℕ → Payment → Payment → Bool
taken id q p = not (p.id == id) && clashes q p

-- `db.payments.update({ where: { id }, data })`, which returns the row.
unfoldable pub update_payment : ℕ → (Payment → Payment) → Action Store Payment
unfolding find update_where any
update_payment id change s = elim (find (has_id id) s.payments) [
  | none ↦ (err (database "Record to update not found."), s)
  | some p ↦
      if any (taken id (change p)) s.payments
      then (err (database "Unique constraint failed"), s)
      else (ok (change p), record s { payments = update_where (has_id id) change s.payments })
]

-- `db.payments.create({ data })`: the id is the next one, and the row meets the unique constraints.
unfoldable pub create_row : (ℕ → Payment) → Action Store Payment
unfolding any
create_row row s =
    let p = row s.next_id in
    if any (λ q. str_eq q.idempotency_key p.idempotency_key || clashes p q) s.payments
    then (err (database "Unique constraint failed"), s)
    else (ok p, record s { payments = s.payments ++ p ∷ []; next_id = s.next_id + 1 })

-- `{ ...responsePayload }` and `{ ...requestPayload }` are the empty object where the argument is
-- undefined, and replace what the column held.
abbrev spread_response : Option ProviderPayment → ResponsePayload
spread_response fields = record no_payload { provider_fields = fields }

abbrev spread_request : Option ProviderRequest → RequestPayload
spread_request none = no_fields
spread_request (some r) = card_request r

unfoldable pub with_status :
    PaymentStatus
    → Option String
    → Option ProviderPayment
    → Option ProviderRequest
    → Payment
    → Payment
with_status status provider_payment_id response_payload request_payload p = record p {
  status = status;
  provider_payment_id = first_some provider_payment_id p.provider_payment_id;
  request_payload = some (spread_request request_payload);
  response_payload = some (spread_response response_payload);
}

unfoldable pub update_payment_status :
    ℕ
    → PaymentStatus
    → Option String
    → Option ProviderPayment
    → Option ProviderRequest
    → Action Store Payment
update_payment_status id status provider_payment_id response_payload request_payload =
    update_payment id (with_status status provider_payment_id response_payload request_payload)

abbrev current_payload : Option ResponsePayload → ResponsePayload
current_payload none = no_payload
current_payload (some payload) = payload

-- The keys that are given replace those of the stored object; the others stay.
unfoldable pub merge_payload :
    Option ProviderPayment
    → Option ClipWebhookPayload
    → Option TopupPayload
    → ResponsePayload
    → ResponsePayload
merge_payload provider_payload webhook_payload topup current = record current {
  provider_payment = first_some provider_payload current.provider_payment;
  clip_webhook = first_some webhook_payload current.clip_webhook;
  topup = first_some topup current.topup;
}

unfoldable pub merged :
    PaymentStatus
    → Option ProviderPayment
    → Option ClipWebhookPayload
    → Option TopupPayload
    → Payment
    → Payment
unfolding merge_payload
merged status provider_payload webhook_payload topup p = record p {
  status = status;
  response_payload =
      some
        (merge_payload provider_payload webhook_payload topup (current_payload p.response_payload));
}

unfoldable pub merge_webhook_processing_result :
    ℕ
    → PaymentStatus
    → Option ProviderPayment
    → Option ClipWebhookPayload
    → Option TopupPayload
    → Action Store Payment
merge_webhook_processing_result id status provider_payload webhook_payload topup =
    update_payment id (merged status provider_payload webhook_payload topup)

-- Another session than the one given holds the name.
abbrev pub is_held : ℕ → String → List Lock → Bool
is_held session name [] = false
is_held session name (l ∷ ls) = elim (str_eq l.name name && not (l.session == session)) [
  | true ↦ true
  | false ↦ is_held session name ls
]

-- The session gives the name back once; without a lock of its own on it, nothing changes.
abbrev pub release_name : ℕ → String → List Lock → List Lock
release_name session name [] = []
release_name session name (l ∷ ls) =
    let rest = release_name session name ls in
    if str_eq l.name name && l.session == session then ls else l ∷ rest

-- `GET_LOCK(name, 5)`: 0 when another session still holds the name after five seconds; a session
-- that holds the name gets it once more.
unfoldable pub acquire_payment_lock : ℕ → String → Action Store Bool
acquire_payment_lock session name s =
    if is_held session name s.locks
    then (ok false, s)
    else (ok true, record s { locks = record { name = name; session = session } ∷ s.locks })

-- `RELEASE_LOCK(name)`, whose answer is only logged.
unfoldable pub release_payment_lock : ℕ → String → Action Store (Unit {0})
release_payment_lock session name s =
    (ok tt, record s { locks = release_name session name s.locks })
