-- ===== src/Promos/Rows.antt =====
-- The queries of kahade-backend/src/core/promo/promo.service.ts, and its writes of single rows.
use rekberkan.Base.{
  ℕ, Bool, false, Option, none, some, [], ◌∷◌, ◌++◌, if◌then◌else◌, ◌==◌, ◌&&◌, is_id, is_some,
  length,
}
use rekberkan.Base.Int.{ℤ, eqb_ℤ, 0ℤ}
use rekberkan.Base.Table.{find_by, find_first, filter_rows, update_by}
use rekberkan.Store.{
  Store, Promo, PromoAssignment, Voucher, VoucherUsage, Action, ok, err, Error, ◌>>=◌, ◌>>◌, pure,
  gets, raise_if, fresh, modify,
}

abbrev pub find_promo : ℕ → Store → Option Promo
find_promo id s = find_by Promo.id id s.promos

abbrev pub find_promo_by_code : ℕ → Store → Option Promo
find_promo_by_code code s = find_by Promo.code code s.promos

abbrev pub find_voucher : ℕ → Store → Option Voucher
find_voucher id s = find_by Voucher.id id s.vouchers

abbrev pub find_voucher_by_code : ℕ → Store → Option Voucher
find_voucher_by_code code s = find_by Voucher.code code s.vouchers

abbrev pub is_assignment : ℕ → ℕ → PromoAssignment → Bool
is_assignment promo user a = a.promo_id == promo && a.user_id == user

-- `voucherUsage.findUnique({ where: { idempotencyKey } })`
abbrev pub find_usage : ℕ → Store → Option VoucherUsage
find_usage key s = find_first (λ u. is_id u.idempotency_key key) s.usages

-- `voucherUsage.count({ where: { voucherId, userId } })`
abbrev pub is_usage : ℕ → ℕ → VoucherUsage → Bool
is_usage voucher user u = u.voucher_id == voucher && u.user_id == user

abbrev pub usage_count : ℕ → ℕ → Store → ℕ
usage_count voucher user s = length (filter_rows (is_usage voucher user) s.usages)

-- The maximum that the promotion of a voucher sets for each user, and 1 where there is none
abbrev limit_of : Option Promo → ℕ
limit_of none = 1
limit_of (some p) = p.max_usage_per_user

abbrev pub max_usage_per_user : Option ℕ → Store → ℕ
max_usage_per_user none s = 1
max_usage_per_user (some p) s = limit_of (find_promo p s)

-- `x ? BigInt(x) : null`
abbrev pub nonzero : Option ℤ → Option ℤ
nonzero none = none
nonzero (some n) = if eqb_ℤ n 0ℤ then none else some n

-- `x || 1`
abbrev pub or_one : Option ℕ → ℕ
or_one none = 1
or_one (some n) = if n == 0 then 1 else n

-- What `update` writes for a column that may be `undefined`, which leaves it
abbrev pub given {ℓ} : {A : Type ℓ} → Option A → A → A
given none old = old
given (some new) old = new

abbrev pub given_some {ℓ} : {A : Type ℓ} → Option A → Option A → Option A
given_some none old = old
given_some (some new) old = some new

unfoldable pub update_promo_row : ℕ → (Promo → Promo) → Action Promo
update_promo_row id f s = elim (find_promo id s) [
  | none ↦ (err Error.record_not_found, s)
  | some p ↦ (ok (f p), record s { promos = update_by Promo.id id f s.promos })
]

unfoldable pub update_voucher_row : ℕ → (Voucher → Voucher) → Action Voucher
update_voucher_row id f s = elim (find_voucher id s) [
  | none ↦ (err Error.record_not_found, s)
  | some v ↦ (ok (f v), record s { vouchers = update_by Voucher.id id f s.vouchers })
]

-- The code is a unique column, and so are the pair of an assignment and the key of a usage.
unfoldable pub insert_promo : (ℕ → Promo) → Action Promo
insert_promo row = do
  id ← fresh
  taken ← gets (λ s. is_some (find_promo_by_code (row id).code s))
  raise_if taken Error.unique_violation
  modify (λ s. record s { promos = s.promos ++ row id ∷ [] })
  pure (row id)

unfoldable pub insert_voucher : (ℕ → Voucher) → Action Voucher
insert_voucher row = do
  id ← fresh
  taken ← gets (λ s. is_some (find_voucher_by_code (row id).code s))
  raise_if taken Error.unique_violation
  modify (λ s. record s { vouchers = s.vouchers ++ row id ∷ [] })
  pure (row id)

unfoldable pub insert_assignment : PromoAssignment → Action PromoAssignment
insert_assignment a = do
  taken ← gets (λ s. is_some (find_first (is_assignment a.promo_id a.user_id) s.assignments))
  raise_if taken Error.unique_violation
  modify (λ s. record s { assignments = s.assignments ++ a ∷ [] })
  pure a

abbrev pub is_taken : Option ℕ → Store → Bool
is_taken none s = false
is_taken (some key) s = is_some (find_usage key s)

unfoldable pub insert_usage : VoucherUsage → Action VoucherUsage
insert_usage u = do
  taken ← gets (is_taken u.idempotency_key)
  raise_if taken Error.unique_violation
  modify (λ s. record s { usages = s.usages ++ u ∷ [] })
  pure u
