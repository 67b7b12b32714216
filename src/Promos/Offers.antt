-- ===== src/Promos/Offers.antt =====
-- The three places of kahade-backend/src/core/promo/promo.service.ts that decide whether a voucher
-- may be used: `validateVoucher`, `getAvailableVouchersForUser` and `applyVoucher`.
use rekberkan.Base.{
  ℕ, ◌≡◌, ◌↔◌, ◌⊎◌, refl, sym, ◌∙◌, Bool, true, false, Option, none, some, List, [], ◌∷◌, arith,
  inl, inr, Bool-cases, ◌==◌, ◌&&◌,
}
use mathlib.Core.Path.{subst}
use rekberkan.Base.Int.{ℤ}
use rekberkan.Base.Table.{find_by, filter_rows}
use rekberkan.Store.{Store, Voucher}
use rekberkan.Promos.Rows.{find_voucher_by_code}
use rekberkan.Promos.Checks.{
  Verdict, validate_found, validate_voucher, below_minimum, outside_categories, is_listed, is_left,
  AvailableVoucher, collect, get_available_vouchers_for_user,
}
use rekberkan.Promos.Applied.{Passes}

-- Whether a list offers a voucher, and whether a table has it
abbrev pub Offers : Voucher → List AvailableVoucher → Type 0
Offers v [] = ⊥
Offers v (e ∷ es) = (e.voucher ≡ v) ⊎ Offers v es

abbrev pub Has : Voucher → List Voucher → Type 0
Has v [] = ⊥
Has v (x ∷ xs) = (x ≡ v) ⊎ Has v xs

-- The voucher that a verdict accepts
pub validate_found_iff :
    (now user : ℕ) (amount : ℤ) (category : Option ℕ) (s : Store) (v : Voucher)
    → (validate_found now user amount category s v ≡ Verdict.valid v)
      ↔ (Passes now user amount v s × (outside_categories v.applicable_categories category ≡ false))
unfolding validate_found
validate_found_iff now user amount category s v = (
  (λ h. (
    record {
      active = ground arith;
      started = ground arith;
      not_over = ground arith;
      left = ground arith;
      own = ground arith;
      enough = ground arith;
      left_for_user = ground arith;
    },
    ground arith,
  )),
  (λ pc. let (p, c) = pc in ground arith),
)

pub validate_voucher-found :
    (upper : ℕ → ℕ) (now code user : ℕ) (amount : ℤ) (category : Option ℕ) (s : Store) (v : Voucher)
    → find_voucher_by_code (upper code) s ≡ some v
    → validate_voucher upper now code user amount category s
      ≡ validate_found now user amount category s v
unfolding validate_voucher
validate_voucher-found upper now code user amount category s v e = rw (e, validate_voucher) refl

both_true : (a b : Bool) → (a && b) ≡ true → (a ≡ true) × (b ≡ true)
both_true a b h = (ground arith, ground arith)

pub no_category : (cs : Option (List ℕ)) → outside_categories cs none ≡ false
no_category none = refl
no_category (some cs) = refl

-- The list has the vouchers of the table that pass the two filters.
Offers-collect :
    (now user : ℕ) (s : Store) (v : Voucher) (vs : List Voucher)
    → Offers v (collect user s (filter_rows (is_listed now user) vs))
    → Has v vs × ((is_listed now user v && is_left user s v) ≡ true)
Offers-collect now user s v [] h = absurd h
Offers-collect now user s v (x ∷ xs) h = elim (Bool-cases (is_listed now user x)) [
  | inr a ↦ let (p, q) = Offers-collect now user s v xs (rw a at h) in (inr p, q)
  | inl a ↦ elim (Bool-cases (is_left user s x)) [
    | inr b ↦ let (p, q) = Offers-collect now user s v xs (rw (a, b) at h) in (inr p, q)
    | inl b ↦
        let k : (x ≡ v) ⊎ Offers v (collect user s (filter_rows (is_listed now user) xs)) =
          rw (a, b) at h in
        elim k [
          | inl e ↦ (
            inl e,
            subst (λ y. (is_listed now user y && is_left user s y) ≡ true) e (rw (a, b) refl),
          )
          | inr more ↦ let (p, q) = Offers-collect now user s v xs more in (inr p, q)
        ]
  ]
]

collect-Offers :
    (now user : ℕ) (s : Store) (v : Voucher) (vs : List Voucher)
    → Has v vs
    → (is_listed now user v && is_left user s v) ≡ true
    → Offers v (collect user s (filter_rows (is_listed now user) vs))
collect-Offers now user s v [] h p = absurd h
collect-Offers now user s v (x ∷ xs) h p = elim h [
  | inl e ↦
      let (a, b) =
        both_true (is_listed now user x) (is_left user s x)
          (subst (λ y. (is_listed now user y && is_left user s y) ≡ true) (sym e) p) in
      rw (a, b) (inl e)
  | inr k ↦
      let rest = collect-Offers now user s v xs k p in
      elim (Bool-cases (is_listed now user x)) [
        | inr a ↦ rw a rest
        | inl a ↦ elim (Bool-cases (is_left user s x)) [
          | inr b ↦ rw (a, b) rest
          | inl b ↦ rw (a, b) (inr rest)
        ]
      ]
]

found_Has :
    (code : ℕ) (v : Voucher) (vs : List Voucher) → find_by Voucher.code code vs ≡ some v → Has v vs
found_Has code v [] h = absurd (cc)
found_Has code v (x ∷ xs) h = elim (Bool-cases (x.code == code)) [
  | inl e ↦ inl (ground arith)
  | inr e ↦ inr (found_Has code v xs (rw e at h))
]

listed-Passes :
    (now user : ℕ) (amount : ℤ) (s : Store) (v : Voucher)
    → below_minimum v.min_purchase_minor amount ≡ false
    → (Passes now user amount v s ↔ ((is_listed now user v && is_left user s v) ≡ true))
listed-Passes now user amount s v m = (
  (λ p. ground arith),
  (λ h. record {
    active = ground arith;
    started = ground arith;
    not_over = ground arith;
    left = ground arith;
    own = ground arith;
    enough = m;
    left_for_user = ground arith;
  }),
)

-- For an amount that reaches the minimum of a voucher, and no category, the list of available
-- vouchers has the voucher exactly when `validateVoucher` accepts its code.
pub get_available_vouchers_iff :
    (upper : ℕ → ℕ) (now code user : ℕ) (amount : ℤ) (s : Store) (v : Voucher)
    → find_voucher_by_code (upper code) s ≡ some v
    → below_minimum v.min_purchase_minor amount ≡ false
    → Offers v (get_available_vouchers_for_user now user s)
      ↔ (validate_voucher upper now code user amount none s ≡ Verdict.valid v)
unfolding get_available_vouchers_for_user
get_available_vouchers_iff upper now code user amount s v f m =
    let same = validate_voucher-found upper now code user amount none s v f in
    let (to, from) = validate_found_iff now user amount none s v in
    let (up, down) = listed-Passes now user amount s v m in
    (
      (λ h.
          let (_, q) = Offers-collect now user s v s.vouchers h in
          same ∙ from (down q, no_category v.applicable_categories)),
      (λ h.
          collect-Offers now user s v s.vouchers (found_Has (upper code) v s.vouchers f)
            (up (to (sym same ∙ h)).0)),
    )
