-- ===== src/Sip/Create.antt =====
-- src/services/bmsc.payment.service.ts, `createSipQr`.
use banking_mobile_backend.Prelude.{
  ℕ, String, Option, none, some, Action, ◌>>=◌, ◌>>◌, pure, or_else,
}
use banking_mobile_backend.Payments.{Payment, SipGenerateQrRequestDto, SipQrObjeto, ResponsePayload}
use banking_mobile_backend.Payments.Services.{Store, Services, Call, ask}
use banking_mobile_backend.Sip.{
  slice, CreateSipPaymentInput, create_sip_payment, find_by_idempotency_key, save_sip_qr_response,
}

pub record CreateSipQrRequestDto : Type 0 where
  pub amount : ℕ
  pub currency : String
  pub description : Option String
  pub net_amount_mxn : Option ℕ

pub record SipReference : Type 0 where
  pub id_qr : Option String
  pub id_transaccion : Option ℕ
  pub banco_destino : Option String
  pub cuenta_destino : Option String

pub record CreateSipQrResponseDto : Type 0 where
  pub payment_id : ℕ
  pub order_id : String
  pub qr_base64 : String
  pub expires_at : String
  pub sip : SipReference

abbrev qr_of : Option ResponsePayload → Option SipQrObjeto
qr_of none = none
qr_of (some payload) = payload.qr_fields

abbrev reference_of : Option String → Option SipQrObjeto → SipReference
reference_of id_qr none = record {
  id_qr = id_qr;
  id_transaccion = none;
  banco_destino = none;
  cuenta_destino = none;
}
reference_of id_qr (some qr) = record {
  id_qr = id_qr;
  id_transaccion = some qr.id_transaccion;
  banco_destino = some qr.banco_destino;
  cuenta_destino = some qr.cuenta_destino;
}

abbrev text_or_empty : (SipQrObjeto → String) → Option SipQrObjeto → String
text_or_empty f none = ""
text_or_empty f (some qr) = f qr

-- The answer from a record that exists already.
unfoldable pub reply_of : Payment → CreateSipQrResponseDto
reply_of p =
    let qr = qr_of p.response_payload in
    record {
      payment_id = p.id;
      order_id = or_else p.order_id "";
      qr_base64 = text_or_empty (λ q. q.imagen_qr) qr;
      expires_at = text_or_empty (λ q. q.fecha_vencimiento) qr;
      sip = reference_of p.provider_payment_id qr;
    }

unfoldable pub fresh_reply : ℕ → String → SipQrObjeto → CreateSipQrResponseDto
fresh_reply id order_id qr = record {
  payment_id = id;
  order_id = order_id;
  qr_base64 = qr.imagen_qr;
  expires_at = qr.fecha_vencimiento;
  sip = reference_of (some qr.id_qr) (some qr);
}

-- What a request for a QR draws from outside: the hash of `generateSipQrIdempotencyKey`, which
-- depends on the user, the amount, the currency and the minute; a random UUID for the order; the
-- date of expiry; and the configured URL.
pub record Draws : Type 0 where
  pub idempotency_key : ℕ → ℕ → String → String
  pub order_id : String
  pub fecha_vencimiento : String
  pub public_callback_url : String

unfoldable pub sip_request : Draws → CreateSipQrRequestDto → SipGenerateQrRequestDto
sip_request draws request = record {
  alias = draws.order_id;
  callback = draws.public_callback_url;
  detalle_glosa = slice 30 (or_else request.description "Compra USDT");
  monto = request.amount;
  moneda = request.currency;
  fecha_vencimiento = draws.fecha_vencimiento;
}

unfoldable pub sip_input :
    Draws → (user_id : ℕ) → CreateSipQrRequestDto → String → CreateSipPaymentInput
sip_input draws user_id request key = record {
  user_id = user_id;
  order_id = draws.order_id;
  amount = request.amount;
  currency = request.currency;
  description = or_else request.description "USDT Purchase";
  net_amount_mxn = request.net_amount_mxn;
  idempotency_key = key;
  request_payload = sip_request draws request;
}

module _ (env : Services) (draws : Draws) (user_id : ℕ) (request : CreateSipQrRequestDto) where
  -- No record has the key: one is written before the bank is asked.
  unfoldable pub new_sip_qr : String → Action Store CreateSipQrResponseDto
  new_sip_qr key = do
    payment ← create_sip_payment (sip_input draws user_id request key)
    qr ← ask env.generate_qr Call.generate_qr (sip_request draws request)
    save_sip_qr_response payment.id qr
    pure (fresh_reply payment.id draws.order_id qr)

  unfoldable pub reply_or_new : String → Option Payment → Action Store CreateSipQrResponseDto
  reply_or_new key none = new_sip_qr key
  reply_or_new key (some p) = pure (reply_of p)

  unfoldable pub create_sip_qr : Action Store CreateSipQrResponseDto
  create_sip_qr = do
    let key = draws.idempotency_key user_id request.amount request.currency
    existing ← find_by_idempotency_key key
    reply_or_new key existing
