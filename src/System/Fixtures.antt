-- ===== src/System/Fixtures.antt =====
-- A store with one card payment and one QR order, and services that always answer, for the tests.
use banking_mobile_backend.Prelude.{ℕ, none, some, [], ◌∷◌, ok, ltb, ◌-◌, ◌/◌}
use banking_mobile_backend.Payments.{
  Payment, pending, processing, clip, qrbmsc, ProviderPayment, ClipWebhookPayload, text,
  SipCallbackDto, SipQrObjeto,
}
use banking_mobile_backend.Payments.Fees.{Number}
use banking_mobile_backend.Payments.Services.{Store, Services, Wallet, Account}
use banking_mobile_backend.Clip.{ProcessPaymentRequest}
use banking_mobile_backend.Sip.Create.{CreateSipQrRequestDto, Draws}

abbrev pub wallet : Wallet
wallet = record { ewallet_id = some 7; external_customer_id = some 9 }

abbrev pub account : Account
account = record {
  email = "ana@example.com";
  phone = none;
  auth_state = some wallet;
  profile = some wallet;
}

abbrev pub submitted_payment : Payment
submitted_payment = record {
  id = 1;
  user_id = 5;
  order_id = none;
  provider = clip;
  provider_payment_id = some "clip-1";
  amount = 1000;
  currency = "MXN";
  description = none;
  net_amount = 950;
  net_amount_mxn = some 950;
  status = processing;
  idempotency_key = "key-1";
  request_payload = none;
  response_payload = none;
}

abbrev pub new_payment : Payment
new_payment = record submitted_payment {
  id = 3;
  provider_payment_id = none;
  status = pending;
  idempotency_key = "key-3";
}

abbrev pub order : Payment
order = record submitted_payment {
  id = 2;
  order_id = some "order-1";
  provider = qrbmsc;
  provider_payment_id = some "qr-1";
  status = pending;
  idempotency_key = "key-2";
}

abbrev pub store : Store
store = record {
  payments = submitted_payment ∷ order ∷ new_payment ∷ [];
  next_id = 4;
  transactions = [];
  accounts = λ user_id. account;
  locks = [];
  calls = [];
}

-- The table without rows.
abbrev pub empty_store : Store
empty_store = record store { payments = []; next_id = 0 }

abbrev pub provider_payment : ProviderPayment
provider_payment = record {
  id = "clip-3";
  amount = 1000;
  currency = "MXN";
  approved_at = none;
  customer = some (record { first_name = none; last_name = none });
  method_type = "card";
  card = some (record { last_digits = "1111"; issuer = "bank" });
  receipt_no = "r-1";
  status = "approved";
  status_message = "";
  pending_action = some (record { action_type = ""; url = "" });
}

abbrev pub qr : SipQrObjeto
qr = record {
  imagen_qr = "image";
  id_qr = "qr-9";
  fecha_vencimiento = "2025-01-01";
  banco_destino = "bmsc";
  cuenta_destino = "1";
  id_transaccion = 8;
}

abbrev pub services : Services
services = record {
  acquire_session = 1;
  release_session = 1;
  process_payment = λ calls request. ok provider_payment;
  payment_details = λ calls key. ok provider_payment;
  top_up = λ calls request. ok (record { transaction_id = some "t-1" });
  generate_qr = λ calls request. ok qr;
  notify = λ calls push. ok tt;
}

abbrev pub webhook : ClipWebhookPayload
webhook = record {
  id = none;
  resource_id = none;
  payment_id = some (text "clip-1");
  provider_payment_id = none;
  status = some (text "rejected");
  item = none;
  content = none;
}

abbrev pub callback : SipCallbackDto
callback = record {
  alias = "order-1";
  monto = none;
  moneda = some "MXN";
  id_qr = some "qr-1";
  numero_orden = none;
  fechaproceso = none;
  nombre_cliente = none;
}

abbrev pub card_data : ProcessPaymentRequest
card_data = record { card_token = "token" }

abbrev pub draws : Draws
draws = record {
  idempotency_key = λ user_id amount currency. currency;
  order_id = "order-9";
  fecha_vencimiento = "2025-01-01";
  public_callback_url = "url";
}

abbrev pub qr_request : CreateSipQrRequestDto
qr_request = record {
  amount = 1000;
  currency = "BOB";
  description = none;
  net_amount_mxn = some 900;
}

-- Hundredths in place of doubles.
abbrev pub cents : Number
cents = record {
  Num = ℕ;
  one = 100;
  cent = 1;
  sub = ◌-◌;
  div = ◌/◌;
  abs = λ a. a;
  gt = λ a b. ltb b a;
  of_decimal = λ a. a;
  of_text = λ s. 0;
  to_decimal = λ a. a;
}
