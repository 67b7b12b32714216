-- ===== src/Promos/Applying.antt =====
-- `applyVoucher` of kahade-backend/src/core/promo/promo.service.ts. `upper` is `toUpperCase` on the
-- texts of codes, and `locked_row` what the database answers to the raw query that locks a row.
use rekberkan.Base.{ℕ, ◌+◌, not, Option, none, some, if◌then◌else◌, ◌&&◌, ltb, leb}
use rekberkan.Base.Int.{ℤ, ◌-ℤ◌, times, quot, eqb_ℤ, ltb_ℤ, 0ℤ}
use rekberkan.Store.{
  Store, Promo, Voucher, VoucherType, VoucherUsage, Action, Error, ◌>>=◌, ◌>>◌, pure, gets,
  or_raise, raise_if, in_transaction,
}
use rekberkan.Promos.Rows.{
  find_usage, usage_count, max_usage_per_user, update_promo_row, update_voucher_row, insert_usage,
}
use rekberkan.Promos.Checks.{is_active, is_for_other, below_minimum}

pub record ApplyVoucherResult : Type 0 where
  pub voucher_id : ℕ
  pub code : ℕ
  pub discount_minor : ℤ
  pub original_minor : ℤ
  pub final_minor : ℤ

abbrev or_zero : Option ℤ → ℤ
or_zero none = 0ℤ
or_zero (some d) = d

abbrev percent_of : Option ℕ → ℕ
percent_of none = 0
percent_of (some p) = p

-- The cap of a percentage; a cap of zero counts as none.
abbrev pub capped : Option ℤ → ℤ → ℤ
capped none d = d
capped (some m) d = if not (eqb_ℤ m 0ℤ) && ltb_ℤ m d then m else d

unfoldable pub raw_discount : VoucherType → Voucher → ℤ → ℤ
raw_discount VoucherType.percentage v amount =
    capped v.max_discount_minor (quot (times amount (percent_of v.discount_percent)) 10_000)
raw_discount VoucherType.fixed v amount = or_zero v.discount_minor

unfoldable pub discount_of : Voucher → ℤ → ℤ
unfolding raw_discount
discount_of v amount =
    let d = raw_discount v.voucher_type v amount in if ltb_ℤ amount d then amount else d

abbrev pub counted : Voucher → Voucher
counted v = record v { current_usages = v.current_usages + 1 }

abbrev pub promo_counted : Promo → Promo
promo_counted p = record p { current_usages = p.current_usages + 1 }

abbrev pub new_usage : Voucher → ℕ → ℤ → Option ℕ → Option ℕ → VoucherUsage
new_usage v user amount order key = record {
  voucher_id = v.id;
  user_id = user;
  order_id = order;
  original_minor = amount;
  discount_minor = discount_of v amount;
  final_minor = amount -ℤ discount_of v amount;
  idempotency_key = key;
}

abbrev pub result_of : ℕ → VoucherUsage → ApplyVoucherResult
result_of code u = record {
  voucher_id = u.voucher_id;
  code = code;
  discount_minor = u.discount_minor;
  original_minor = u.original_minor;
  final_minor = u.final_minor;
}

-- `if (voucher.promoId) ...`
unfoldable pub count_promo : Option ℕ → Action (Unit {0})
unfolding update_promo_row
count_promo none = pure tt
count_promo (some p) = update_promo_row p promo_counted >> pure tt

-- The writes of the transaction
unfoldable pub record_usage : Voucher → VoucherUsage → Action (Unit {0})
unfolding insert_usage update_voucher_row count_promo
record_usage v u = do insert_usage u; update_voucher_row v.id counted; count_promo v.promo_id

-- The checks of the transaction, on the locked row
unfoldable pub check_voucher : ℕ → ℕ → ℤ → Voucher → Action (Unit {0})
check_voucher now user amount v = do
  raise_if (not (is_active v.status)) Error.bad_request
  raise_if (ltb now v.valid_from) Error.bad_request
  raise_if (ltb v.valid_until now) Error.bad_request
  raise_if (leb v.max_usages v.current_usages) Error.bad_request
  raise_if (is_for_other v.assigned_to_user_id user) Error.bad_request
  raise_if (below_minimum v.min_purchase_minor amount) Error.bad_request
  used ← gets (usage_count v.id user)
  most ← gets (max_usage_per_user v.promo_id)
  raise_if (leb most used) Error.bad_request

unfoldable pub apply_locked : ℕ → ℕ → ℤ → Option ℕ → Option ℕ → Voucher → Action ApplyVoucherResult
unfolding check_voucher record_usage
apply_locked now user amount order key v = do
  check_voucher now user amount v
  record_usage v (new_usage v user amount order key)
  pure (result_of v.code (new_usage v user amount order key))

abbrev pub usage_of : Option ℕ → Store → Option VoucherUsage
usage_of none s = none
usage_of (some key) s = find_usage key s

-- A usage with the same key answers the call.
abbrev pub answered :
    ℕ → Option VoucherUsage → Action ApplyVoucherResult → Action ApplyVoucherResult
answered code none m = m
answered code (some u) m = pure (result_of code u)

module _ (upper : ℕ → ℕ) (locked_row : ℕ → Store → Option Voucher) where
  unfoldable pub apply_tx : ℕ → ℕ → ℕ → ℤ → Option ℕ → Option ℕ → Action ApplyVoucherResult
  unfolding apply_locked
  apply_tx now code user amount order key = do
    v ← or_raise Error.bad_request (← gets (locked_row (upper code)))
    apply_locked now user amount order key v

  unfoldable pub apply_voucher : ℕ → ℕ → ℕ → ℤ → Option ℕ → Option ℕ → Action ApplyVoucherResult
  unfolding apply_tx
  apply_voucher now code user amount order key = do
    existing ← gets (usage_of key)
    answered code existing (in_transaction (apply_tx now code user amount order key))
