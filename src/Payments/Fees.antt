-- ===== src/Payments/Fees.antt =====
-- src/utils/payment.utils.ts, `calculatePaymentFees`. The numbers are JavaScript's doubles, which are
-- a parameter: their subtraction and division, and the conversions to and from the table's decimals.
use banking_mobile_backend.Prelude.{ℕ, String, Bool}

pub record Number : Type 1 where
  pub Num : Type 0
  pub one : Num
  pub cent : Num
  pub sub : Num → Num → Num
  pub div : Num → Num → Num
  pub abs : Num → Num
  pub gt : Num → Num → Bool
  -- `toNumber` of a decimal, `Number` of a text, and a number stored in a decimal column.
  pub of_decimal : ℕ → Num
  pub of_text : String → Num
  pub to_decimal : Num → ℕ

module _ (n : Number) where
  open n use {Num, one, sub, div}

  pub record PaymentFeeCalculation : Type 0 where
    pub business_fee_rate : Num
    pub business_fee_amount : Num
    pub gross_amount : Num
    pub net_amount : Num

  -- `fee_rate` is `config.exchangeRate.usdMxnFeeRate`.
  unfoldable pub calculate_payment_fees : (fee_rate amount : Num) → PaymentFeeCalculation
  calculate_payment_fees fee_rate amount =
      let gross = div amount (sub one fee_rate) in
      record {
        business_fee_rate = fee_rate;
        business_fee_amount = sub gross amount;
        gross_amount = gross;
        net_amount = amount;
      }
