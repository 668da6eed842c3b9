-- ===== src/Payments/Lookup.antt =====
-- A payment found by its provider's id, under changes of its row.
use banking_mobile_backend.Prelude.{ℕ, String, refl, Option}
use banking_mobile_backend.Prelude.Triple.{Triple}
use banking_mobile_backend.Payments.{
  Payment, PaymentStatus, clip, ProviderPayment, ClipWebhookPayload, TopupPayload,
}
use banking_mobile_backend.Payments.Services.{Store}
use banking_mobile_backend.Payments.Rows.{FindsBy, update_payment-FindsBy}
use banking_mobile_backend.Payments.Repository.{
  has_provider_id, merged, merge_webhook_processing_result,
}

module _ (key : String) (id : ℕ) where
  -- The row that the key finds has the id, and `P` holds of it.
  abbrev pub Finds : (Payment → Type 0) → Store → Type 0
  Finds P s = FindsBy (has_provider_id clip key) id P s

  pub merge-Finds :
      (status : PaymentStatus) (provider : Option ProviderPayment)
      (webhook : Option ClipWebhookPayload) (topup : Option TopupPayload) (P Q : Payment → Type 0)
      → ((p : Payment) → P p → Q (merged status provider webhook topup p))
      → Triple
          (Finds P)
          (merge_webhook_processing_result id status provider webhook topup)
          (λ _. Finds Q)
          (Finds P)
  unfolding merge_webhook_processing_result merged
  merge-Finds status provider webhook topup P Q step =
      update_payment-FindsBy (has_provider_id clip key) id (merged status provider webhook topup)
        (λ p. refl) (λ p. refl) P Q step
