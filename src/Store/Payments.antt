-- ===== src/Store/Payments.antt =====
-- The rows of payments by a provider and of deposits into wallets
-- (kahade-backend/prisma/schema/30_payment.prisma).
use rekberkan.Base.{ℕ, Option}
use rekberkan.Base.Int.{ℤ}

pub data PaymentProvider : Type 0 where
  xendit midtrans : PaymentProvider

pub data PaymentMethod : Type 0 where
  virtual_account ewallet credit_card : PaymentMethod

pub data PaymentStatus : Type 0 where
  pending success failed expired processing : PaymentStatus

pub data DepositStatus : Type 0 where
  pending success failed : DepositStatus

pub record Payment : Type 0 where
  pub id : ℕ
  pub user_id : ℕ
  pub provider : PaymentProvider
  pub provider_invoice_id : Option ℕ
  pub payment_method : Option PaymentMethod
  pub amount_minor : ℤ
  pub status : PaymentStatus
  pub expires_at : Option ℕ

pub record Deposit : Type 0 where
  pub id : ℕ
  pub wallet_id : ℕ
  pub payment_id : ℕ
  pub amount_minor : ℤ
  pub status : DepositStatus
