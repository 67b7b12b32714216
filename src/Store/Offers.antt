-- ===== src/Store/Offers.antt =====
-- The rows of promotions and vouchers (kahade-backend/prisma/schema/100_promo_voucher.prisma). A
-- percentage has two decimals, and is held in hundredths.
use rekberkan.Base.{ℕ, Bool, Option, List}
use rekberkan.Base.Int.{ℤ}

pub data PromoTargetType : Type 0 where
  to_user to_order : PromoTargetType

pub data VoucherType : Type 0 where
  percentage fixed : VoucherType

pub data VoucherStatus : Type 0 where
  active inactive expired : VoucherStatus

pub record Promo : Type 0 where
  pub id : ℕ
  pub code : ℕ
  pub name : ℕ
  pub description : Option ℕ
  pub target_type : PromoTargetType
  pub discount_type : VoucherType
  pub discount_value : Option ℤ
  pub discount_percent : Option ℕ
  pub max_discount_minor : Option ℤ
  pub max_total_usages : Option ℕ
  pub max_usage_per_user : ℕ
  pub current_usages : ℕ
  pub min_purchase_minor : Option ℤ
  pub applicable_categories : Option (List ℕ)
  pub valid_from : ℕ
  pub valid_until : ℕ
  pub is_active : Bool

pub record PromoAssignment : Type 0 where
  pub promo_id : ℕ
  pub user_id : ℕ
  pub expires_at : Option ℕ

pub record Voucher : Type 0 where
  pub id : ℕ
  pub promo_id : Option ℕ
  pub code : ℕ
  pub voucher_type : VoucherType
  pub discount_minor : Option ℤ
  pub discount_percent : Option ℕ
  pub max_discount_minor : Option ℤ
  pub max_usages : ℕ
  pub current_usages : ℕ
  pub min_purchase_minor : Option ℤ
  pub applicable_categories : Option (List ℕ)
  pub valid_from : ℕ
  pub valid_until : ℕ
  pub status : VoucherStatus
  pub assigned_to_user_id : Option ℕ

pub record VoucherUsage : Type 0 where
  pub voucher_id : ℕ
  pub user_id : ℕ
  pub order_id : Option ℕ
  pub original_minor : ℤ
  pub discount_minor : ℤ
  pub final_minor : ℤ
  pub idempotency_key : Option ℕ
