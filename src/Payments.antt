-- ===== src/Payments.antt =====
-- The `payments` table and what surrounds it: the statuses and records of
-- src/schemas/payment.schemas.ts and src/schemas/sip.schemas.ts, the row of the table
-- (prisma/schema.prisma), and the services outside the repository that the payment services call.
--
-- Amounts of money are the table's decimals, counted in hundredths; ids are numbers, also where the
-- source prints them by `toString`. Timestamps of creation and update are left out.
pub mod Utils
pub mod Fees
pub mod Topup
pub mod Repository
pub mod Services
pub mod WellFormed
pub mod Effects
pub mod Rows
pub mod Lookup
use banking_mobile_backend.Prelude.{ℕ, String, Bool, true, false, Option, List}

pub data PaymentStatus : Type 0 where
  pending processing completed failed cancelled : PaymentStatus

abbrev pub is_pending : PaymentStatus → Bool
is_pending PaymentStatus.pending = true
is_pending _ = false

abbrev pub is_completed : PaymentStatus → Bool
is_completed PaymentStatus.completed = true
is_completed _ = false

pub record TopUpRequest : Type 0 where
  pub external_transaction_id : String
  pub balance_id : ℕ
  pub amount : ℕ
  pub source_customer_id : ℕ

-- What the wallet's `/wallet/v1/topUp` answers.
pub record TopUpResponse : Type 0 where
  pub transaction_id : Option String

pub record TopupPayload : Type 0 where
  pub status : PaymentStatus
  pub external_transaction_id : String
  pub amount : ℕ
  pub balance_id : ℕ
  pub source_customer_id : ℕ
  pub response : Option TopUpResponse
  pub note : Option String
  pub error : Option String

pub record ProviderCard : Type 0 where
  pub last_digits : String
  pub issuer : String

pub record PendingAction : Type 0 where
  pub action_type : String
  pub url : String

pub record Customer : Type 0 where
  pub first_name : Option String
  pub last_name : Option String

-- The fields of the provider's payment that the services read.
pub record ProviderPayment : Type 0 where
  pub id : String
  pub amount : ℕ
  pub currency : String
  pub approved_at : Option String
  pub customer : Option Customer
  pub method_type : String
  pub card : Option ProviderCard
  pub receipt_no : String
  pub status : String
  pub status_message : String
  pub pending_action : Option PendingAction

pub record ProviderRequest : Type 0 where
  pub amount : ℕ
  pub currency : String
  pub description : String
  pub token : String
  pub email : String
  pub phone : Option String
  pub webhook_url : String

-- A field of a webhook's body is a string, or any other JSON value, or absent.
pub data JsonField : Type 0 where
  text : String → JsonField
  other : JsonField

pub record WebhookItem : Type 0 where
  pub id : Option JsonField
  pub payment_id : Option JsonField
  pub status : Option JsonField

pub record ClipWebhookPayload : Type 0 where
  pub id : Option JsonField
  pub resource_id : Option JsonField
  pub payment_id : Option JsonField
  pub provider_payment_id : Option JsonField
  pub status : Option JsonField
  pub item : Option WebhookItem
  pub content : Option WebhookItem

pub record SipQrObjeto : Type 0 where
  pub imagen_qr : String
  pub id_qr : String
  pub fecha_vencimiento : String
  pub banco_destino : String
  pub cuenta_destino : String
  pub id_transaccion : ℕ

-- `monto` is the number as it is written in the body.
pub record SipCallbackDto : Type 0 where
  pub alias : String
  pub monto : Option String
  pub moneda : Option String
  pub id_qr : Option String
  pub numero_orden : Option String
  pub fechaproceso : Option String
  pub nombre_cliente : Option String

pub data FailureReason : Type 0 where
  amount_mismatch : (expected : ℕ) (received : String) → FailureReason
  currency_mismatch : (expected received : String) → FailureReason

-- `response_payload`: the keys that the services write, in groups. `provider_fields` are the fields
-- of a provider's payment spread into the object, `qr_fields` those of a QR, and `reason` the object
-- of a failed callback; the other fields are the keys of the same name.
pub record ResponsePayload : Type 0 where
  pub provider_fields : Option ProviderPayment
  pub qr_fields : Option SipQrObjeto
  pub reason : Option FailureReason
  pub provider_payment : Option ProviderPayment
  pub clip_webhook : Option ClipWebhookPayload
  pub topup : Option TopupPayload
  pub callback : Option SipCallbackDto

pub record SipGenerateQrRequestDto : Type 0 where
  pub alias : String
  pub callback : String
  pub detalle_glosa : String
  pub monto : ℕ
  pub moneda : String
  pub fecha_vencimiento : String

-- `request_payload`: a request to the card provider, a request for a QR, or the empty object.
pub data RequestPayload : Type 0 where
  no_fields : RequestPayload
  card_request : ProviderRequest → RequestPayload
  qr_request : SipGenerateQrRequestDto → RequestPayload

pub data Provider : Type 0 where
  clip qrbmsc : Provider

-- A row of the `payments` table.
pub record Payment : Type 0 where
  pub id : ℕ
  pub user_id : ℕ
  pub order_id : Option String
  pub provider : Provider
  pub provider_payment_id : Option String
  pub amount : ℕ
  pub currency : String
  pub description : Option String
  pub net_amount : ℕ
  pub net_amount_mxn : Option ℕ
  pub status : PaymentStatus
  pub idempotency_key : String
  pub request_payload : Option RequestPayload
  pub response_payload : Option ResponsePayload
