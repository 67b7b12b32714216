-- ===== src/Promos/Admin.antt =====
-- What administrators do to promotions and vouchers
-- (kahade-backend/src/core/promo/promo.service.ts). `upper` is `toUpperCase` on the texts of codes.
use rekberkan.Base.{ℕ, true, false, Option, some, List, is_some}
use rekberkan.Base.Int.{ℤ}
use rekberkan.Base.Table.{find_first}
use rekberkan.Store.{
  Promo, PromoAssignment, PromoTargetType, Voucher, VoucherType, VoucherStatus, Action, Error,
  ◌>>=◌, ◌>>◌, gets, or_raise, raise_if,
}
use rekberkan.Promos.Rows.{
  find_promo, find_promo_by_code, find_voucher, find_voucher_by_code, is_assignment, nonzero,
  or_one, given, given_some, update_promo_row, update_voucher_row, insert_promo, insert_voucher,
  insert_assignment,
}

pub record CreatePromoDto : Type 0 where
  pub code : ℕ
  pub name : ℕ
  pub description : Option ℕ
  pub target_type : PromoTargetType
  pub discount_type : VoucherType
  pub discount_value : Option ℤ
  pub discount_percent : Option ℕ
  pub max_discount_minor : Option ℤ
  pub max_total_usages : Option ℕ
  pub max_usage_per_user : Option ℕ
  pub min_purchase_minor : Option ℤ
  pub applicable_categories : Option (List ℕ)
  pub valid_from : ℕ
  pub valid_until : ℕ

-- `Partial<CreatePromoDto>`, the parts that `updatePromo` reads
pub record UpdatePromoDto : Type 0 where
  pub name : Option ℕ
  pub description : Option ℕ
  pub discount_value : Option ℤ
  pub discount_percent : Option ℕ
  pub max_discount_minor : Option ℤ
  pub max_total_usages : Option ℕ
  pub max_usage_per_user : Option ℕ
  pub min_purchase_minor : Option ℤ
  pub applicable_categories : Option (List ℕ)
  pub valid_from : Option ℕ
  pub valid_until : Option ℕ

pub record CreateVoucherDto : Type 0 where
  pub promo_id : Option ℕ
  pub code : ℕ
  pub voucher_type : VoucherType
  pub discount_minor : Option ℤ
  pub discount_percent : Option ℕ
  pub max_discount_minor : Option ℤ
  pub max_usages : Option ℕ
  pub min_purchase_minor : Option ℤ
  pub applicable_categories : Option (List ℕ)
  pub valid_from : ℕ
  pub valid_until : ℕ
  pub assigned_to_user_id : Option ℕ

abbrev pub new_promo : (ℕ → ℕ) → CreatePromoDto → ℕ → Promo
new_promo upper dto id = record {
  id = id;
  code = upper dto.code;
  name = dto.name;
  description = dto.description;
  target_type = dto.target_type;
  discount_type = dto.discount_type;
  discount_value = nonzero dto.discount_value;
  discount_percent = dto.discount_percent;
  max_discount_minor = nonzero dto.max_discount_minor;
  max_total_usages = dto.max_total_usages;
  max_usage_per_user = or_one dto.max_usage_per_user;
  current_usages = 0;
  min_purchase_minor = nonzero dto.min_purchase_minor;
  applicable_categories = dto.applicable_categories;
  valid_from = dto.valid_from;
  valid_until = dto.valid_until;
  is_active = true;
}

abbrev pub new_voucher : (ℕ → ℕ) → CreateVoucherDto → ℕ → Voucher
new_voucher upper dto id = record {
  id = id;
  promo_id = dto.promo_id;
  code = upper dto.code;
  voucher_type = dto.voucher_type;
  discount_minor = nonzero dto.discount_minor;
  discount_percent = dto.discount_percent;
  max_discount_minor = nonzero dto.max_discount_minor;
  max_usages = or_one dto.max_usages;
  current_usages = 0;
  min_purchase_minor = nonzero dto.min_purchase_minor;
  applicable_categories = dto.applicable_categories;
  valid_from = dto.valid_from;
  valid_until = dto.valid_until;
  status = VoucherStatus.active;
  assigned_to_user_id = dto.assigned_to_user_id;
}

abbrev pub edited_promo : UpdatePromoDto → Promo → Promo
edited_promo dto p = record p {
  name = given dto.name p.name;
  description = given_some dto.description p.description;
  discount_value = given_some (nonzero dto.discount_value) p.discount_value;
  discount_percent = given_some dto.discount_percent p.discount_percent;
  max_discount_minor = given_some (nonzero dto.max_discount_minor) p.max_discount_minor;
  max_total_usages = given_some dto.max_total_usages p.max_total_usages;
  max_usage_per_user = given dto.max_usage_per_user p.max_usage_per_user;
  min_purchase_minor = given_some (nonzero dto.min_purchase_minor) p.min_purchase_minor;
  applicable_categories = given_some dto.applicable_categories p.applicable_categories;
  valid_from = given dto.valid_from p.valid_from;
  valid_until = given dto.valid_until p.valid_until;
}

module _ (upper : ℕ → ℕ) where
  unfoldable pub create_promo : CreatePromoDto → Action Promo
  unfolding insert_promo
  create_promo dto = do
    existing ← gets (find_promo_by_code (upper dto.code))
    raise_if (is_some existing) Error.conflicting
    insert_promo (new_promo upper dto)

  unfoldable pub create_voucher : CreateVoucherDto → Action Voucher
  unfolding insert_voucher
  create_voucher dto = do
    existing ← gets (find_voucher_by_code (upper dto.code))
    raise_if (is_some existing) Error.conflicting
    insert_voucher (new_voucher upper dto)

-- `getPromo` and `getVoucher`, without the rows that they include
unfoldable pub get_promo : ℕ → Action Promo
get_promo id = gets (find_promo id) >>= or_raise Error.not_found

unfoldable pub get_voucher : ℕ → Action Voucher
get_voucher id = gets (find_voucher id) >>= or_raise Error.not_found

unfoldable pub update_promo : ℕ → UpdatePromoDto → Action Promo
unfolding update_promo_row
update_promo id dto = do
  or_raise Error.not_found (← gets (find_promo id))
  update_promo_row id (edited_promo dto)

unfoldable pub deactivate_promo : ℕ → Action Promo
unfolding update_promo_row
deactivate_promo id = update_promo_row id (λ p. record p { is_active = false })

unfoldable pub deactivate_voucher : ℕ → Action Voucher
unfolding update_voucher_row
deactivate_voucher id = update_voucher_row id (λ v. record v { status = VoucherStatus.inactive })

unfoldable pub assign_promo_to_user : ℕ → ℕ → Action PromoAssignment
unfolding insert_assignment
assign_promo_to_user promo user = do
  p ← or_raise Error.not_found (← gets (find_promo promo))
  existing ← gets (λ s. find_first (is_assignment promo user) s.assignments)
  raise_if (is_some existing) Error.conflicting
  insert_assignment (record { promo_id = promo; user_id = user; expires_at = some p.valid_until })
