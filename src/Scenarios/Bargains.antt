-- ===== src/Scenarios/Bargains.antt =====
-- Runs of the promotion service: a voucher of ten per cent, at most thirty, for one category.
use rekberkan.Base.{false, sym, ℕ, ◌≡◌, ◌↔◌, ◌≤◌, refl, Option, none, some, List, [], ◌∷◌, arith}
use mathlib.Core.Path.{subst}
use rekberkan.Base.Int.{pos, ◌≤ℤ◌, ◌+ℤ◌, ◌-ℤ◌, 0ℤ}
use rekberkan.Base.Table.{find_by-key}
use rekberkan.Store.{Store, Voucher, VoucherType, VoucherStatus, ok}
use rekberkan.Promos.Rows.{find_voucher, find_voucher_by_code}
use rekberkan.Promos.Checks.{Verdict, validate_voucher, get_available_vouchers_for_user}
use rekberkan.Promos.Applying.{ApplyVoucherResult, apply_voucher, discount_of}
use rekberkan.Promos.Applied.{Passes}
use rekberkan.Promos.Discounts.{WithinCap}
use rekberkan.Promos.Again.{apply_voucher-then-apply_voucher, apply_voucher_bounds}
use rekberkan.Promos.Offers.{Offers, get_available_vouchers_iff}
use rekberkan.Promos.Accepts.{check_voucher_iff}
use rekberkan.Promos.Checks.{outside_categories}
use rekberkan.Promos.Applying.{check_voucher}
use rekberkan.Promos.Meter.{IsMetered, total_usages}
use rekberkan.Promos.Runs.{Call, IsRow, run, run_usages}
use rekberkan.Scenarios.{market}

abbrev ten_percent : Voucher
ten_percent = record {
  id = 40;
  promo_id = none;
  code = 7;
  voucher_type = VoucherType.percentage;
  discount_minor = none;
  discount_percent = some 1000;
  max_discount_minor = some (pos 30);
  max_usages = 2;
  current_usages = 0;
  min_purchase_minor = some (pos 100);
  applicable_categories = some (1 ∷ []);
  valid_from = 0;
  valid_until = 1000;
  status = VoucherStatus.active;
  assigned_to_user_id = none;
}

abbrev bargains : Store
bargains = record market { vouchers = ten_percent ∷ [] }

abbrev same_text : ℕ → ℕ
same_text code = code

abbrev row_of : Option Voucher → Store → Option Voucher
row_of none s = none
row_of (some v) s = find_voucher v.id s

abbrev lock_row : ℕ → Store → Option Voucher
lock_row code s = row_of (find_voucher_by_code code s) s

row_by_id :
    (o : Option Voucher) (s : Store) (v : Voucher)
    → row_of o s ≡ some v
    → find_voucher v.id s ≡ some v
row_by_id none s v h = absurd (cc)
row_by_id (some w) s v h =
    subst (λ i. find_voucher i s ≡ some v) (sym (find_by-key Voucher.id w.id v s.vouchers h)) h

lock_row-IsRow : IsRow lock_row
lock_row-IsRow = record { by_id = λ code s v h. row_by_id (find_voucher_by_code code s) s v h }

bargains-IsMetered : IsMetered bargains
bargains-IsMetered = record {
  counts = λ id v e. ground arith;
  within = λ id v e. ground arith;
  unused = λ id e. (ground arith, refl);
}

abbrev applied : ApplyVoucherResult
applied = record {
  voucher_id = 40;
  code = 7;
  discount_minor = pos 30;
  original_minor = pos 400;
  final_minor = pos 370;
}

abbrev after : Store
after = (apply_voucher same_text lock_row 5 7 1 (pos 400) (some 9) (some 88) bargains).1

applies :
    apply_voucher same_text lock_row 5 7 1 (pos 400) (some 9) (some 88) bargains
    ≡ (ok applied, after)
unfolding apply_voucher discount_of ◌-ℤ◌
applies = refl

apply_voucher-then-apply_voucher_example :
    apply_voucher same_text lock_row 6 8 2 (pos 9) none (some 88) after
    ≡ (ok (record applied { code = 8 }), after)
apply_voucher-then-apply_voucher_example =
    apply_voucher-then-apply_voucher same_text lock_row 5 7 1 (pos 400) (some 9) 88 bargains after
      applied 6 8 2 (pos 9) none refl applies

apply_voucher_bounds_example :
    Passes 5 1 (pos 400) ten_percent bargains
    × (0ℤ ≤ℤ pos 30)
    × (pos 30 ≤ℤ pos 400)
    × (pos 30 +ℤ pos 370 ≡ pos 400)
    × (ten_percent.voucher_type ≡ VoucherType.percentage → WithinCap (some (pos 30)) (pos 30))
apply_voucher_bounds_example =
    apply_voucher_bounds same_text lock_row 5 7 1 (pos 400) (some 9) (some 88) ten_percent bargains
      after applied refl refl (omega arith) tt (omega arith) applies

get_available_vouchers_iff_example :
    Offers ten_percent (get_available_vouchers_for_user 5 1 bargains)
    ↔ (validate_voucher same_text 5 7 1 (pos 400) none bargains ≡ Verdict.valid ten_percent)
get_available_vouchers_iff_example =
    get_available_vouchers_iff same_text 5 7 1 (pos 400) bargains ten_percent refl refl

-- The voucher is for the categories 3 and 4.
abbrev for_some : Voucher
for_some = record ten_percent { applicable_categories = some (3 ∷ 4 ∷ []) }

abbrev some_bargains : Store
some_bargains = record bargains { vouchers = for_some ∷ [] }

check_voucher_iff_example :
    (validate_voucher same_text 5 7 1 (pos 400) (some 4) some_bargains ≡ Verdict.valid for_some) ↔ (
      (check_voucher 5 1 (pos 400) for_some some_bargains ≡ (ok tt, some_bargains))
      × (outside_categories (some (3 ∷ 4 ∷ [])) (some 4) ≡ false))
check_voucher_iff_example =
    check_voucher_iff same_text 5 7 1 (pos 400) (some 4) for_some some_bargains refl

abbrev calls : List Call
calls =
    Call.apply 5 7 1 (pos 400) none none
    ∷ Call.apply 5 7 1 (pos 400) none none
    ∷ Call.apply 6 7 2 (pos 400) none none
    ∷ []

abbrev used_twice : Voucher
used_twice = record ten_percent { current_usages = 2 }

run_usages_example :
    (total_usages 40 (run same_text lock_row calls bargains) ≡ 2)
    × (total_usages 40 (run same_text lock_row calls bargains) ≤ 2)
unfolding run ◌-ℤ◌
run_usages_example =
    run_usages same_text lock_row lock_row-IsRow calls bargains 40 used_twice bargains-IsMetered
      refl
