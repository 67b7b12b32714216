-- ===== src/Promos/Checks.antt =====
-- Whether a voucher may be used, in the two ways of kahade-backend/src/core/promo/promo.service.ts:
-- `validateVoucher`, which answers, and `getAvailableVouchersForUser`, which lists. `upper` is
-- `toUpperCase` on the texts of codes.
use rekberkan.Base.{
  ℕ, ◌-◌, Bool, true, false, not, Option, none, some, List, [], ◌∷◌, if◌then◌else◌, ◌==◌, ◌&&◌,
  ◌||◌, ltb, leb,
}
use rekberkan.Base.Int.{ℤ, eqb_ℤ, ltb_ℤ, 0ℤ}
use rekberkan.Base.Table.{filter_rows}
use rekberkan.Store.{Store, Voucher, VoucherStatus}
use rekberkan.Promos.Rows.{find_voucher_by_code, usage_count, max_usage_per_user}

-- The answers of `validateVoucher`
pub data Verdict : Type 0 where
  valid : Voucher → Verdict
  voucher_not_found not_active not_yet_valid has_expired limit_reached : Verdict
  not_for_user below_minimum_purchase wrong_category already_used : Verdict

abbrev pub is_active : VoucherStatus → Bool
is_active VoucherStatus.active = true
is_active _ = false

-- `voucher.assignedToUserId && voucher.assignedToUserId !== userId`
abbrev pub is_for_other : Option ℕ → ℕ → Bool
is_for_other none user = false
is_for_other (some u) user = not (u == user)

-- `voucher.minPurchaseMinor && orderAmountMinor < voucher.minPurchaseMinor`
abbrev pub below_minimum : Option ℤ → ℤ → Bool
below_minimum none amount = false
below_minimum (some m) amount = not (eqb_ℤ m 0ℤ) && ltb_ℤ amount m

abbrev pub includes : List ℕ → ℕ → Bool
includes [] c = false
includes (x ∷ xs) c = x == c || includes xs c

-- `voucher.applicableCategories && orderCategory`, and the category is not among them
abbrev pub outside_categories : Option (List ℕ) → Option ℕ → Bool
outside_categories none c = false
outside_categories (some cs) none = false
outside_categories (some cs) (some c) = not (includes cs c)

unfoldable pub validate_found : ℕ → ℕ → ℤ → Option ℕ → Store → Voucher → Verdict
validate_found now user amount category s v =
    if not (is_active v.status)
    then Verdict.not_active
    else if ltb now v.valid_from
    then Verdict.not_yet_valid
    else if ltb v.valid_until now
    then Verdict.has_expired
    else if leb v.max_usages v.current_usages
    then Verdict.limit_reached
    else if is_for_other v.assigned_to_user_id user
    then Verdict.not_for_user
    else if below_minimum v.min_purchase_minor amount
    then Verdict.below_minimum_purchase
    else if outside_categories v.applicable_categories category
    then Verdict.wrong_category
    else if leb (max_usage_per_user v.promo_id s) (usage_count v.id user s)
    then Verdict.already_used
    else Verdict.valid v

unfoldable pub validate_voucher : (ℕ → ℕ) → ℕ → ℕ → ℕ → ℤ → Option ℕ → Store → Verdict
unfolding validate_found
validate_voucher upper now code user amount category s =
    elim (find_voucher_by_code (upper code) s) [
      | none ↦ Verdict.voucher_not_found
      | some v ↦ validate_found now user amount category s v
    ]

-- The `where` of `getAvailableVouchersForUser`, and the filter after it
abbrev pub is_listed : ℕ → ℕ → Voucher → Bool
is_listed now user v =
    is_active v.status
    && leb v.valid_from now
    && leb now v.valid_until
    && not (is_for_other v.assigned_to_user_id user)

abbrev pub is_left : ℕ → Store → Voucher → Bool
is_left user s v =
    ltb (usage_count v.id user s) (max_usage_per_user v.promo_id s)
    && ltb v.current_usages v.max_usages

-- An entry of the list: the voucher, and what is left to all and to the user
pub record AvailableVoucher : Type 0 where
  pub voucher : Voucher
  pub remaining_usages : ℕ
  pub user_remaining_usages : ℕ

abbrev pub entry_of : ℕ → Store → Voucher → AvailableVoucher
entry_of user s v = record {
  voucher = v;
  remaining_usages = v.max_usages - v.current_usages;
  user_remaining_usages = max_usage_per_user v.promo_id s - usage_count v.id user s;
}

abbrev pub collect : ℕ → Store → List Voucher → List AvailableVoucher
collect user s [] = []
collect user s (v ∷ vs) =
    if is_left user s v then entry_of user s v ∷ collect user s vs else collect user s vs

-- `getAvailableVouchersForUser`, in the order of the table
unfoldable pub get_available_vouchers_for_user : ℕ → ℕ → Store → List AvailableVoucher
get_available_vouchers_for_user now user s =
    collect user s (filter_rows (is_listed now user) s.vouchers)
