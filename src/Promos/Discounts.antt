-- ===== src/Promos/Discounts.antt =====
-- The discount of a voucher (kahade-backend/src/core/promo/promo.service.ts).
use rekberkan.Base.{ℕ, ◌≡◌, ◌≢◌, Option, none, some, arith, inl, inr, Option-cases}
use mathlib.Core.Path.{subst}
use rekberkan.Base.Int.{ℤ, pos, negsuc, ◌≤ℤ◌, times, quot, 0ℤ}
use rekberkan.Store.{Voucher, VoucherType}
use rekberkan.Promos.Applying.{raw_discount, discount_of, capped}

abbrev pub NotNegative : Option ℤ → Type 0
NotNegative none = Unit {0}
NotNegative (some d) = 0ℤ ≤ℤ d

-- What a cap lets through
abbrev pub WithinCap : Option ℤ → ℤ → Type 0
WithinCap none d = Unit {0}
WithinCap (some m) d = m ≢ 0ℤ → d ≤ℤ m

share_not_negative : (a : ℤ) (p : ℕ) → 0ℤ ≤ℤ a → 0ℤ ≤ℤ quot (times a p) 10_000
share_not_negative (pos n) p h = omega arith
share_not_negative (negsuc n) p h = absurd (omega arith)

capped_bounds :
    (m : Option ℤ) (d : ℤ) → NotNegative m → 0ℤ ≤ℤ d → (0ℤ ≤ℤ capped m d) × WithinCap m (capped m d)
capped_bounds none d h k = (k, tt)
capped_bounds (some m) d h k = (ground arith, λ z. ground arith)

raw_bounds :
    (t : VoucherType) (v : Voucher) (amount : ℤ)
    → 0ℤ ≤ℤ amount
    → NotNegative v.discount_minor
    → NotNegative v.max_discount_minor
    → 0ℤ ≤ℤ raw_discount t v amount
unfolding raw_discount
raw_bounds VoucherType.percentage v amount h d m =
    (capped_bounds v.max_discount_minor _ m (share_not_negative amount _ h)).0
raw_bounds VoucherType.fixed v amount h d m = elim (Option-cases v.discount_minor) [
  | inl e ↦ rw e (omega arith)
  | inr (x, e) ↦ rw e (subst NotNegative e d)
]

raw_cap :
    (v : Voucher) (amount : ℤ)
    → 0ℤ ≤ℤ amount
    → NotNegative v.max_discount_minor
    → WithinCap v.max_discount_minor (raw_discount VoucherType.percentage v amount)
unfolding raw_discount
raw_cap v amount h m = (capped_bounds v.max_discount_minor _ m (share_not_negative amount _ h)).1

smaller_within : (m : Option ℤ) (c d : ℤ) → c ≤ℤ d → WithinCap m d → WithinCap m c
smaller_within none c d h k = tt
smaller_within (some m) c d h k = λ z. omega (arith, k z)

discount_le_raw :
    (v : Voucher) (amount : ℤ) → discount_of v amount ≤ℤ raw_discount v.voucher_type v amount
unfolding discount_of
discount_le_raw v amount = ground arith

pub discount_cap :
    (v : Voucher) (amount : ℤ)
    → 0ℤ ≤ℤ amount
    → NotNegative v.max_discount_minor
    → v.voucher_type ≡ VoucherType.percentage
    → WithinCap v.max_discount_minor (discount_of v amount)
unfolding raw_discount
discount_cap v amount h m p =
    smaller_within v.max_discount_minor _ _ (discount_le_raw v amount) (rw p (raw_cap v amount h m))

pub discount_bounds :
    (v : Voucher) (amount : ℤ)
    → 0ℤ ≤ℤ amount
    → NotNegative v.discount_minor
    → NotNegative v.max_discount_minor
    → (0ℤ ≤ℤ discount_of v amount) × (discount_of v amount ≤ℤ amount)
unfolding discount_of
discount_bounds v amount h d m =
    (ground (arith, raw_bounds v.voucher_type v amount h d m), ground arith)
