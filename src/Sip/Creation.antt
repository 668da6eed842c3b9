-- ===== src/Sip/Creation.antt =====
-- src/services/bmsc.payment.service.ts, `createSipQr`: a request that is repeated within the minute.
use mathlib.Core.Path.{subst}
use banking_mobile_backend.Prelude.{
  ℕ, String, ◌≡◌, refl, ap, ◌∙◌, Bool, true, none, some, List, [], ◌∷◌, ◌++◌, Bool-cases,
  Option-cases, inl, inr, arith, eq_iff, str_eq, find, any, pure, ok, ◌>>=◌, ◌>>◌, ◌||◌,
}
use banking_mobile_backend.Prelude.Triple.{
  Triple, Outcome, Triple-bind, Triple-weaken, Triple-pure, Outcome-continue, Triple-keep,
}
use banking_mobile_backend.Payments.{Payment, SipQrObjeto}
use banking_mobile_backend.Payments.Services.{Store, Services, Call, ask}
use banking_mobile_backend.Payments.Repository.{create_row, clashes}
use banking_mobile_backend.Payments.Rows.{FindsBy, ask-FindsBy, update_payment-FindsBy}
use banking_mobile_backend.Sip.{
  has_key, sip_row, CreateSipPaymentInput, create_sip_payment, with_qr, save_sip_qr_response,
  find_by_idempotency_key,
}
use banking_mobile_backend.Sip.Create.{
  CreateSipQrRequestDto, CreateSipQrResponseDto, Draws, sip_input, sip_request, new_sip_qr,
  reply_of, reply_or_new, create_sip_qr, fresh_reply,
}

pub str_eq_refl : (s : String) → str_eq s s ≡ true
str_eq_refl s = ground (arith, eq_iff s s)

pub find-append {ℓ} :
    {A : Type ℓ} (p : A → Bool) (xs : List A) (y : A)
    → find p xs ≡ none
    → p y ≡ true
    → find p (xs ++ y ∷ []) ≡ some y
unfolding find
find-append p [] y h t = rw t refl
find-append p (x ∷ xs) y h t = ground (arith, find-append p xs y)

-- The row of a new request, until the bank has answered.
pub record IsNew (id : ℕ) (order_id : String) (p : Payment) : Type 0 where
  pub same : p.id ≡ id
  pub order : p.order_id ≡ some order_id

abbrev Answers : CreateSipQrResponseDto → Payment → Type 0
Answers r p = reply_of p ≡ r

module _ (input : CreateSipPaymentInput) where
  create_sip_payment-IsNew :
      (s : Store)
      → find (has_key input.idempotency_key) s.payments ≡ none
      → Outcome
          (λ a. FindsBy (has_key input.idempotency_key) a.id (IsNew a.id input.order_id))
          (λ _. Unit {0})
          (create_sip_payment input s)
  unfolding create_sip_payment create_row sip_row
  create_sip_payment-IsNew s none' =
      let p = sip_row input s.next_id in
      elim (Bool-cases
        (any (λ q. str_eq q.idempotency_key p.idempotency_key || clashes p q) s.payments)) [
          | inl clash ↦ rw (clash, create_row) tt
          | inr free ↦
              rw (free, create_row)
                (record {
                  row = p;
                  found =
                      find-append (has_key input.idempotency_key) s.payments p none'
                        (str_eq_refl input.idempotency_key);
                  same_id = refl;
                  holds = record { same = refl; order = refl };
                })
        ]

save_sip_qr_response-Answers :
    (key order_id : String) (id : ℕ) (qr : SipQrObjeto)
    → Triple
        (FindsBy (has_key key) id (IsNew id order_id))
        (save_sip_qr_response id qr)
        (λ _. FindsBy (has_key key) id (Answers (fresh_reply id order_id qr)))
        (λ _. Unit {0})
unfolding save_sip_qr_response with_qr reply_of fresh_reply
save_sip_qr_response-Answers key order_id id qr =
    Triple-weaken (FindsBy (has_key key) id (IsNew id order_id)) (λ _. Unit {0}) _ (λ s h. tt)
      (update_payment-FindsBy (has_key key) id (with_qr qr) (λ p. refl) (λ p. refl)
        (IsNew id order_id) (Answers (fresh_reply id order_id qr))
        (λ p h. rw (h.same, h.order) refl))

module _ (env : Services) (draws : Draws) (user_id : ℕ) (request : CreateSipQrRequestDto) where
  -- The row that the key finds answers like `r`.
  abbrev IsAnswered : String → CreateSipQrResponseDto → Store → Type 0
  IsAnswered key r s = (p : Payment) × (find (has_key key) s.payments ≡ some p) × (reply_of p ≡ r)

  finish :
      (key : String) (id : ℕ)
      → Triple
          (FindsBy (has_key key) id (IsNew id draws.order_id))
          (ask env.generate_qr Call.generate_qr (sip_request draws request) >>= λ qr.
            save_sip_qr_response id qr >> pure (fresh_reply id draws.order_id qr))
          (λ r. IsAnswered key r)
          (λ _. Unit {0})
  finish key id =
      Triple-bind (λ r. IsAnswered key r)
        (ask env.generate_qr Call.generate_qr (sip_request draws request)) _
        (Triple-keep (
          ask-FindsBy (has_key key) id (IsNew id draws.order_id) env.generate_qr Call.generate_qr
            (sip_request draws request)))
        (λ qr.
          Triple-bind (λ r. IsAnswered key r) (save_sip_qr_response id qr) _
            (save_sip_qr_response-Answers key draws.order_id id qr)
            (λ a.
              Triple-pure (FindsBy (has_key key) id (Answers (fresh_reply id draws.order_id qr)))
                (fresh_reply id draws.order_id qr) (λ r. IsAnswered key r) (λ _. Unit {0})
                (λ s h. (h.row, h.found, h.holds))))

  new_sip_qr-IsAnswered :
      (key : String) (s : Store)
      → find (has_key key) s.payments ≡ none
      → Outcome (IsAnswered key) (λ _. Unit {0}) (new_sip_qr env draws user_id request key s)
  unfolding new_sip_qr ◌>>=◌ sip_input
  new_sip_qr-IsAnswered key s none' =
      Outcome-continue (IsAnswered key) (create_sip_payment (sip_input draws user_id request key) s)
        _ (λ a. finish key a.id)
        (create_sip_payment-IsNew (sip_input draws user_id request key) s none')

  create-known :
      (s : Store) (p : Payment)
      → find (has_key (draws.idempotency_key user_id request.amount request.currency)) s.payments
        ≡ some p
      → create_sip_qr env draws user_id request s ≡ (ok (reply_of p), s)
  unfolding create_sip_qr reply_or_new find_by_idempotency_key ◌>>=◌
  create-known s p found = rw (found, ◌>>=◌)

  create-new :
      (s : Store)
      → find (has_key (draws.idempotency_key user_id request.amount request.currency)) s.payments
        ≡ none
      → create_sip_qr env draws user_id request s
        ≡ new_sip_qr env draws user_id request
            (draws.idempotency_key user_id request.amount request.currency)
            s
  unfolding create_sip_qr reply_or_new find_by_idempotency_key ◌>>=◌
  create-new s missing = rw (missing, ◌>>=◌)

  create-IsAnswered :
      (s : Store)
      → Outcome
          (IsAnswered (draws.idempotency_key user_id request.amount request.currency))
          (λ _. Unit {0})
          (create_sip_qr env draws user_id request s)
  create-IsAnswered s =
      let key = draws.idempotency_key user_id request.amount request.currency in
      elim (Option-cases (find (has_key key) s.payments)) [
        | inl missing ↦ rw (create-new s missing) (new_sip_qr-IsAnswered key s missing)
        | inr (p, found) ↦ rw (create-known s p found) (p, found, refl)
      ]

-- A request that was answered is answered in the same words when it comes again with the same
-- idempotency key, and then no row is added or changed and the bank is not called, whatever the
-- other draws and the answers of the services.
pub create_sip_qr-replay :
    (env later : Services) (draws again : Draws) (user_id : ℕ) (request : CreateSipQrRequestDto)
    (s : Store) {r : CreateSipQrResponseDto} {s' : Store}
    → again.idempotency_key user_id request.amount request.currency
      ≡ draws.idempotency_key user_id request.amount request.currency
    → create_sip_qr env draws user_id request s ≡ (ok r, s')
    → create_sip_qr later again user_id request s' ≡ (ok r, s')
create_sip_qr-replay env later draws again user_id request s {r} {s'} same run =
    let (p, found, answer) =
      subst
        (Outcome
          (IsAnswered env draws user_id request
            (draws.idempotency_key user_id request.amount request.currency))
          (λ _. Unit {0}))
        run (create-IsAnswered env draws user_id request s) in
    create-known later again user_id request s' p (rw same found) ∙ ap (λ x. (ok x, s')) answer
