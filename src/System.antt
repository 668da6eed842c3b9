-- ===== src/System.antt =====
-- The payments as one system: card payments and QR payments write the same tables, and their
-- operations follow one another in any order (the routes of src/routes/payment.routes.ts,
-- src/routes/bmsc.payment.routes.ts and src/routes/webhook.routes.ts call them).
mod Tests
mod Orders
mod Fixtures
use banking_mobile_backend.Prelude.{
  ℕ, String, ◌≡◌, refl, ◌∙◌, Option, some, List, Option-cases, inl, inr, find,
}
use banking_mobile_backend.Prelude.Keeps.{Keeps, keeps_rules}
use banking_mobile_backend.Payments.{
  SipQrObjeto, FailureReason, SipCallbackDto, ClipWebhookPayload, Payment, ResponsePayload,
}
use banking_mobile_backend.Payments.Fees.{Number}
use banking_mobile_backend.Payments.Services.{Store, Services}
use banking_mobile_backend.Payments.WellFormed.{
  IsWellFormed, KeepsKeys, update_payment-IsWellFormed, create_row-IsWellFormed,
}
use banking_mobile_backend.Payments.Effects.{ask-IsWellFormed, send_proof-IsWellFormed}
use banking_mobile_backend.Payments.Repository.{get_payment_by_id}
use banking_mobile_backend.Clip.{
  PaymentCreateRequest, create_payment, ProcessPaymentRequest, process_payment,
  verify_payment_status,
}
use banking_mobile_backend.Clip.Webhook.{handle_clip_webhook}
use banking_mobile_backend.Clip.Constraints.{
  create_payment-IsWellFormed, process_payment-IsWellFormed, verify_payment_status-IsWellFormed,
  handle_clip_webhook-IsWellFormed, merge-IsWellFormed,
}
use banking_mobile_backend.Sip.{
  CreateSipPaymentInput, create_sip_payment, sip_row, with_qr, save_sip_qr_response, with_failure,
  mark_failed, with_callback, complete_sip_payment, create_topup_if_not_exists, find_by_order_id,
  find_by_idempotency_key, has_reference, payload_of,
}
use banking_mobile_backend.Sip.Create.{
  CreateSipQrRequestDto, Draws, create_sip_qr, new_sip_qr, reply_or_new,
}
use banking_mobile_backend.Sip.Callback.{
  check_amount, check_currency, top_up_order, accept_order, settle_order, handle_sip_callback,
}

create_sip_payment-IsWellFormed :
    (input : CreateSipPaymentInput) → Keeps IsWellFormed (create_sip_payment input)
unfolding create_sip_payment sip_row
create_sip_payment-IsWellFormed input = create_row-IsWellFormed (sip_row input) (λ id. refl)

save_sip_qr_response-IsWellFormed :
    (id : ℕ) (qr : SipQrObjeto) → Keeps IsWellFormed (save_sip_qr_response id qr)
unfolding save_sip_qr_response with_qr
save_sip_qr_response-IsWellFormed id qr =
    update_payment-IsWellFormed id (with_qr qr) (record { id = λ p. refl; key = λ p. refl })

mark_failed-IsWellFormed :
    (id : ℕ) (reason : FailureReason) → Keeps IsWellFormed (mark_failed id reason)
unfolding mark_failed with_failure
mark_failed-IsWellFormed id reason =
    update_payment-IsWellFormed id (with_failure reason)
      (record { id = λ p. refl; key = λ p. refl })

with_callback-KeepsKeys :
    (existing : ResponsePayload) (dto : SipCallbackDto) → KeepsKeys (with_callback existing dto)
unfolding with_callback
with_callback-KeepsKeys existing dto = record { id = λ p. refl; key = λ p. refl }

complete_sip_payment-IsWellFormed :
    (id : ℕ) (dto : SipCallbackDto) → Keeps IsWellFormed (complete_sip_payment id dto)
unfolding complete_sip_payment get_payment_by_id
complete_sip_payment-IsWellFormed id dto =
    search (keeps_rules, update_payment-IsWellFormed, with_callback-KeepsKeys)

create_topup-IsWellFormed :
    (user_id amount : ℕ) (ref description : String)
    → Keeps IsWellFormed (create_topup_if_not_exists user_id amount ref description)
unfolding create_topup_if_not_exists
create_topup-IsWellFormed user_id amount ref description = record {
  at = λ s h. elim (Option-cases (find (has_reference ref) s.transactions)) [
    | inl missing ↦
        rw (missing, create_topup_if_not_exists)
          (record { distinct = h.distinct; numbered = h.numbered })
    | inr (t, found) ↦ rw (found, create_topup_if_not_exists) h
  ];
}

module _ (env : Services) where
  reply_or_new-IsWellFormed :
      (draws : Draws) (user_id : ℕ) (request : CreateSipQrRequestDto) (key : String)
      (existing : Option Payment)
      → Keeps IsWellFormed (reply_or_new env draws user_id request key existing)
  unfolding reply_or_new new_sip_qr
  reply_or_new-IsWellFormed draws user_id request key (some p) = search keeps_rules
  reply_or_new-IsWellFormed draws user_id request key _ =
      search
        (
          keeps_rules, ask-IsWellFormed, create_sip_payment-IsWellFormed,
          save_sip_qr_response-IsWellFormed,
        )
        depth 12

  create_sip_qr-IsWellFormed :
      (draws : Draws) (user_id : ℕ) (request : CreateSipQrRequestDto)
      → Keeps IsWellFormed (create_sip_qr env draws user_id request)
  unfolding create_sip_qr find_by_idempotency_key
  create_sip_qr-IsWellFormed draws user_id request = search (keeps_rules, reply_or_new-IsWellFormed)

  check_amount-IsWellFormed :
      (n : Number) (p : Payment) (monto : Option String)
      → Keeps IsWellFormed (check_amount n p monto)
  unfolding check_amount
  check_amount-IsWellFormed n p (some monto) = search (keeps_rules, mark_failed-IsWellFormed)
  check_amount-IsWellFormed n p _ = search keeps_rules

  check_currency-IsWellFormed :
      (p : Payment) (moneda : Option String) → Keeps IsWellFormed (check_currency p moneda)
  unfolding check_currency
  check_currency-IsWellFormed p (some moneda) = search (keeps_rules, mark_failed-IsWellFormed)
  check_currency-IsWellFormed p _ = search keeps_rules

  top_up_order-IsWellFormed :
      (dto : SipCallbackDto) (p : Payment) → Keeps IsWellFormed (top_up_order env dto p)
  unfolding top_up_order
  top_up_order-IsWellFormed dto p =
      search (keeps_rules, ask-IsWellFormed, send_proof-IsWellFormed, merge-IsWellFormed) depth 20

  handle_sip_callback-IsWellFormed :
      (n : Number) (dto : SipCallbackDto) → Keeps IsWellFormed (handle_sip_callback env n dto)
  unfolding handle_sip_callback settle_order accept_order find_by_order_id
  handle_sip_callback-IsWellFormed n dto =
      search
        (
          keeps_rules, check_amount-IsWellFormed, check_currency-IsWellFormed,
          complete_sip_payment-IsWellFormed, create_topup-IsWellFormed, top_up_order-IsWellFormed,
        )
        depth 24

-- Requests, webhooks and callbacks one after another, each with any input and any answers of the
-- services; `n` are the numbers of the language.
data Steps (n : Number) : Store → Store → Type 1 where
  start : {s : Store} → Steps n s s
  created :
      {s t : Store} (fee_rate : n.Num) (user_id : ℕ) (request : PaymentCreateRequest n)
      (key : String)
      → Steps n s t
      → Steps n s (create_payment n fee_rate user_id request key t).1
  processed :
      {s t : Store} (env : Services) (url : String) (id : ℕ) (request : ProcessPaymentRequest)
      → Steps n s t
      → Steps n s (process_payment env url id request t).1
  verified :
      {s t : Store} (env : Services) (id : ℕ)
      → Steps n s t
      → Steps n s (verify_payment_status env id t).1
  notified :
      {s t : Store} (env : Services) (payload : ClipWebhookPayload)
      → Steps n s t
      → Steps n s (handle_clip_webhook env payload t).1
  qr_created :
      {s t : Store} (env : Services) (draws : Draws) (user_id : ℕ) (request : CreateSipQrRequestDto)
      → Steps n s t
      → Steps n s (create_sip_qr env draws user_id request t).1
  called_back :
      {s t : Store} (env : Services) (dto : SipCallbackDto)
      → Steps n s t
      → Steps n s (handle_sip_callback env n dto t).1

-- Every state that the operations reach from a well-formed one is well-formed: ids, idempotency keys
-- and provider's ids stay unique in the table, and the next id is above all ids.
Steps-IsWellFormed : (n : Number) (s t : Store) → Steps n s t → IsWellFormed s → IsWellFormed t
Steps-IsWellFormed n s _ start h = h
Steps-IsWellFormed n s _ (created {t} fee_rate user_id request key steps) h =
    (create_payment-IsWellFormed n fee_rate user_id request key).at t
      (Steps-IsWellFormed n s t steps h)
Steps-IsWellFormed n s _ (processed {t} env url id request steps) h =
    (process_payment-IsWellFormed env url id request).at t (Steps-IsWellFormed n s t steps h)
Steps-IsWellFormed n s _ (verified {t} env id steps) h =
    (verify_payment_status-IsWellFormed env id).at t (Steps-IsWellFormed n s t steps h)
Steps-IsWellFormed n s _ (notified {t} env payload steps) h =
    (handle_clip_webhook-IsWellFormed env payload).at t (Steps-IsWellFormed n s t steps h)
Steps-IsWellFormed n s _ (qr_created {t} env draws user_id request steps) h =
    (create_sip_qr-IsWellFormed env draws user_id request).at t (Steps-IsWellFormed n s t steps h)
Steps-IsWellFormed n s _ (called_back {t} env dto steps) h =
    (handle_sip_callback-IsWellFormed env n dto).at t (Steps-IsWellFormed n s t steps h)
