-- ===== src/Promos/Again.antt =====
-- `applyVoucher` (kahade-backend/src/core/promo/promo.service.ts) under one key twice, and what its
-- answer amounts to.
use rekberkan.Base.{
  ℕ, ◌≡◌, refl, sym, ap, ◌∙◌, Option, none, some, List, [], ◌∷◌, ◌++◌, is_id, eq→==, inl, inr,
  Bool-cases,
}
use mathlib.Core.Path.{subst}
use rekberkan.Base.Int.{ℤ, ◌≤ℤ◌, ◌+ℤ◌, ◌-ℤ◌, 0ℤ, int_laws}
use rekberkan.Base.Table.{find_first}
use rekberkan.Store.{Store, Voucher, VoucherType, VoucherUsage, ok}
use rekberkan.Promos.Rows.{find_usage}
use rekberkan.Promos.Applying.{
  ApplyVoucherResult, apply_voucher, new_usage, result_of, usage_of, answered, discount_of,
}
use rekberkan.Promos.Applied.{Passes, apply_voucher-ok}
use rekberkan.Promos.Discounts.{NotNegative, WithinCap, discount_bounds, discount_cap}

find_first-append_new :
    (key : ℕ) (us : List VoucherUsage) (u : VoucherUsage)
    → find_first (λ x. is_id x.idempotency_key key) us ≡ none
    → u.idempotency_key ≡ some key
    → find_first (λ x. is_id x.idempotency_key key) (us ++ u ∷ []) ≡ some u
find_first-append_new key [] u n k = rw k (rw (eq→== key key refl) refl)
find_first-append_new key (x ∷ us) u n k = elim (Bool-cases (is_id x.idempotency_key key)) [
  | inl e ↦ absurd (cc)
  | inr e ↦ rw e (find_first-append_new key us u (rw e at n) k)
]

answered_some :
    (upper : ℕ → ℕ) (locked_row : ℕ → Store → Option Voucher) (now code user : ℕ) (amount : ℤ)
    (order key : Option ℕ) (s : Store) (u : VoucherUsage)
    → usage_of key s ≡ some u
    → apply_voucher upper locked_row now code user amount order key s ≡ (ok (result_of code u), s)
unfolding apply_voucher
answered_some upper locked_row now code user amount order key s u e = rw (e, answered) refl

-- Once a call under a new key has returned, every later call under the key, by whichever user, at
-- whichever time, for whichever code and amount, returns the discount and the amounts of the first
-- with the voucher of the first, under the code that it was given, and writes nothing.
pub apply_voucher-then-apply_voucher :
    (upper : ℕ → ℕ) (locked_row : ℕ → Store → Option Voucher) (now code user : ℕ) (amount : ℤ)
    (order : Option ℕ) (key : ℕ) (s t : Store) (r : ApplyVoucherResult) (later code' user' : ℕ)
    (amount' : ℤ) (order' : Option ℕ)
    → find_usage key s ≡ none
    → apply_voucher upper locked_row now code user amount order (some key) s ≡ (ok r, t)
    → apply_voucher upper locked_row later code' user' amount' order' (some key) t
      ≡ (ok (record r { code = code' }), t)
apply_voucher-then-apply_voucher upper locked_row now code user amount order key s t r later code'
      user' amount' order' n h =
    let (v, a) =
      apply_voucher-ok upper locked_row now code user amount order (some key) s t r n h in
    let u = new_usage v user amount order (some key) in
    let kept : find_usage key t ≡ some u =
      ap (find_first (λ x. is_id x.idempotency_key key)) a.wrote.usages
      ∙ find_first-append_new key s.usages u n refl in
    answered_some upper locked_row later code' user' amount' order' (some key) t u kept
    ∙ ap (λ x. (ok (record x { code = code' }), t)) (sym a.answer)

rest_of : (a d : ℤ) → d +ℤ (a -ℤ d) ≡ a
rest_of a d = omega int_laws

-- When `applyVoucher` under a new key returns for an amount that is not negative, and the voucher
-- that was locked has no negative discount and no negative cap: the voucher may be used by this user
-- at this time for this amount, it has a usage left in all and one for the user, the discount lies
-- between nothing and the amount, the discount and what is left to pay add up to the amount, and a
-- percentage keeps to a cap that is not zero.
pub apply_voucher_bounds :
    (upper : ℕ → ℕ) (locked_row : ℕ → Store → Option Voucher) (now code user : ℕ) (amount : ℤ)
    (order key : Option ℕ) (v : Voucher) (s t : Store) (r : ApplyVoucherResult)
    → usage_of key s ≡ none
    → locked_row (upper code) s ≡ some v
    → 0ℤ ≤ℤ amount
    → NotNegative v.discount_minor
    → NotNegative v.max_discount_minor
    → apply_voucher upper locked_row now code user amount order key s ≡ (ok r, t)
    → Passes now user amount v s
      × (0ℤ ≤ℤ r.discount_minor)
      × (r.discount_minor ≤ℤ amount)
      × (r.discount_minor +ℤ r.final_minor ≡ amount)
      × (v.voucher_type ≡ VoucherType.percentage → WithinCap v.max_discount_minor r.discount_minor)
apply_voucher_bounds upper locked_row now code user amount order key v s t r n l h d m run =
    let (x, a) = apply_voucher-ok upper locked_row now code user amount order key s t r n run in
    let same : x ≡ v = cc (a.locked, l) in
    let (low, high) = discount_bounds v amount h d m in
    let e : r.discount_minor ≡ discount_of v amount =
      ap (λ y. y.discount_minor) a.answer ∙ ap (λ y. discount_of y amount) same in
    let g : r.final_minor ≡ amount -ℤ discount_of v amount =
      ap (λ y. y.final_minor) a.answer ∙ ap (λ y. amount -ℤ discount_of y amount) same in
    (
      subst (λ y. Passes now user amount y s) same a.passes,
      rw e low,
      rw e high,
      rw (e, g) (rest_of amount (discount_of v amount)),
      λ p. rw e (discount_cap v amount h m p),
    )
