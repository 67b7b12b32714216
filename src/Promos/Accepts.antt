-- ===== src/Promos/Accepts.antt =====
-- The checks that `applyVoucher` and `validateVoucher` of
-- kahade-backend/src/core/promo/promo.service.ts write out separately, compared.
use rekberkan.Base.{ℕ, ◌≡◌, ◌↔◌, sym, ◌∙◌, Option, some, false}
use rekberkan.Base.Int.{ℤ}
use rekberkan.Store.{Store, Voucher, ok}
use rekberkan.Promos.Rows.{find_voucher_by_code}
use rekberkan.Promos.Checks.{Verdict, outside_categories, validate_voucher}
use rekberkan.Promos.Applying.{check_voucher}
use rekberkan.Promos.Applied.{check_voucher-ok, check_voucher-Passes}
use rekberkan.Promos.Offers.{validate_found_iff, validate_voucher-found}

-- `validateVoucher` accepts the voucher that it finds by the code exactly when the checks that
-- `applyVoucher` makes on that voucher all pass, which write nothing, and the category of the request
-- is one of the voucher's, where both have any: the categories are all that the two differ in.
pub check_voucher_iff :
    (upper : ℕ → ℕ) (now code user : ℕ) (amount : ℤ) (category : Option ℕ) (v : Voucher) (s : Store)
    → find_voucher_by_code (upper code) s ≡ some v
    → (validate_voucher upper now code user amount category s ≡ Verdict.valid v) ↔ (
        (check_voucher now user amount v s ≡ (ok tt, s))
        × (outside_categories v.applicable_categories category ≡ false))
check_voucher_iff upper now code user amount category v s f =
    let same = validate_voucher-found upper now code user amount category s v f in
    let (to, from) = validate_found_iff now user amount category s v in
    (
      (λ h. let (p, c) = to (sym same ∙ h) in (check_voucher-Passes now user amount v s p, c)),
      (λ h. let (q, c) = h in same ∙ from ((check_voucher-ok now user amount v s s tt q).0, c)),
    )
