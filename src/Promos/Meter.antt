-- ===== src/Promos/Meter.antt =====
-- The counts of used vouchers (kahade-backend/src/core/promo/promo.service.ts): a voucher counts the
-- usages that are recorded for it, and has no more of them than its maximum.
use rekberkan.Base.{
  ℕ, ◌⊎◌, ◌+◌, ◌≡◌, ◌≤◌, ◌<◌, refl, sym, Bool, true, false, none, some, List, [], ◌∷◌, ◌++◌,
  if◌then◌else◌, ◌==◌, length, arith, inl, inr, Option-cases, Bool-cases, ==→eq,
}
use mathlib.Core.Path.{subst}
use mathlib.Core.Option
use rekberkan.Base.Table.{filter_rows, find_by-update_by, find_by-append}
use rekberkan.Store.{Store, Voucher, VoucherUsage}
use rekberkan.Promos.Rows.{find_voucher}
use rekberkan.Promos.Applying.{counted}
use rekberkan.Promos.Applied.{Wrote}

abbrev is_of : ℕ → VoucherUsage → Bool
is_of id u = u.voucher_id == id

-- How many usages are recorded for a voucher
abbrev pub total_usages : ℕ → Store → ℕ
total_usages id s = length (filter_rows (is_of id) s.usages)

-- Each voucher counts its usages within its maximum, and identifiers to come name nothing yet.
pub record IsMetered (s : Store) : Type 0 where
  pub counts :
      (id : ℕ) (v : Voucher) → find_voucher id s ≡ some v → total_usages id s ≡ v.current_usages
  pub within : (id : ℕ) (v : Voucher) → find_voucher id s ≡ some v → v.current_usages ≤ v.max_usages
  pub unused : (id : ℕ) → s.next_id ≤ id → (find_voucher id s ≡ none) × (total_usages id s ≡ 0)

-- A call that leaves vouchers and usages alone
pub same-IsMetered :
    (s t : Store)
    → t.vouchers ≡ s.vouchers
    → t.usages ≡ s.usages
    → s.next_id ≤ t.next_id
    → IsMetered s
    → IsMetered t
same-IsMetered s t p q n h = record {
  counts = λ id v e. rw q (h.counts id v (rw p at e));
  within = λ id v e. h.within id v (rw p at e);
  unused = λ id e. let (a, b) = h.unused id (omega arith) in (rw p a, rw q b);
}

count-append :
    (p : VoucherUsage → Bool) (us : List VoucherUsage) (u : VoucherUsage)
    → length (filter_rows p (us ++ u ∷ [])) ≡ length (filter_rows p us) + (if p u then 1 else 0)
count-append p [] u = ground arith
count-append p (x ∷ us) u = ground (arith, count-append p us u)

module _ (v : Voucher) (u : VoucherUsage) (s t : Store) (w : Wrote v u s t) where
  total_later :
      (id : ℕ)
      → u.voucher_id ≡ v.id
      → total_usages id t ≡ total_usages id s + (if v.id == id then 1 else 0)
  total_later id k = rw w.usages (rw (← k) (count-append (is_of id) s.usages u))

  find_later :
      (id : ℕ)
      → find_voucher id t
        ≡ (if v.id == id then Option.map counted (find_voucher id s) else find_voucher id s)
  find_later id =
      rw w.vouchers (find_by-update_by Voucher.id id v.id counted s.vouchers (λ r. refl))

  same_later :
      (id : ℕ) (x : Voucher)
      → find_voucher v.id s ≡ some v
      → (v.id == id) ≡ true
      → find_voucher id t ≡ some x
      → (find_voucher id s ≡ some v) × (x ≡ counted v)
  same_later id x f b e =
      let own : find_voucher id s ≡ some v =
        subst (λ i. find_voucher i s ≡ some v) (==→eq v.id id b) f in
      (own, ground (arith, find_later id))

  other_later :
      (id : ℕ) (x : Voucher)
      → (v.id == id) ≡ false
      → find_voucher id t ≡ some x
      → find_voucher id s ≡ some x
  other_later id x b e = ground (arith, find_later id)

  pub wrote-IsMetered :
      find_voucher v.id s ≡ some v
      → u.voucher_id ≡ v.id
      → v.current_usages < v.max_usages
      → IsMetered s
      → IsMetered t
  wrote-IsMetered f k left h = record {
    counts = λ id x e. elim (Bool-cases (v.id == id)) [
      | inl b ↦
          let (own, eq) = same_later id x f b e in
          ground (arith, total_later id k, h.counts id v own)
      | inr b ↦ ground (arith, total_later id k, h.counts id x (other_later id x b e))
    ];
    within = λ id x e. elim (Bool-cases (v.id == id)) [
      | inl b ↦ let (own, eq) = same_later id x f b e in ground arith
      | inr b ↦ h.within id x (other_later id x b e)
    ];
    unused = λ id e. elim (Bool-cases (v.id == id)) [
      | inl b ↦
          let (own, _) = (h.unused id (subst (λ i. i ≤ id) w.next_id e)) in
          absurd (cc (subst (λ i. find_voucher i s ≡ some v) (==→eq v.id id b) f))
      | inr b ↦
          let (a, n) = h.unused id (subst (λ i. i ≤ id) w.next_id e) in
          (ground (arith, find_later id), ground (arith, total_later id k))
    ];
  }

-- A new voucher
module _ (v : Voucher) (s t : Store) (p : t.vouchers ≡ s.vouchers ++ v ∷ []) where
  find_after :
      (id : ℕ)
      → find_voucher id t
        ≡ elim (find_voucher id s) [ none ↦ if v.id == id then some v else none | some x ↦ some x ]
  find_after id = rw p (find_by-append Voucher.id id s.vouchers (v ∷ []))

  old_or_new :
      (id : ℕ) (x : Voucher)
      → find_voucher id t ≡ some x
      → (find_voucher id s ≡ some x) ⊎ ((x ≡ v) × (id ≡ v.id))
  old_or_new id x e = elim (Option-cases (find_voucher id s)) [
    | inr (y, f) ↦ inl (ground (arith, find_after id))
    | inl f ↦ elim (Bool-cases (v.id == id)) [
      | inl b ↦ inr (ground (arith, find_after id), sym (==→eq v.id id b))
      | inr b ↦ absurd (ground (arith, find_after id))
    ]
  ]

  pub added-IsMetered :
      v.id ≡ s.next_id
      → v.current_usages ≡ 0
      → t.usages ≡ s.usages
      → t.next_id ≡ s.next_id + 1
      → IsMetered s
      → IsMetered t
  added-IsMetered i z q n h = record {
    counts = λ id x e. elim (old_or_new id x e) [
      | inl f ↦ rw q (h.counts id x f)
      | inr (f, g) ↦ rw q (ground (arith, (h.unused id (omega arith)).1))
    ];
    within =
        λ id x e. elim (old_or_new id x e) [ inl f ↦ h.within id x f | inr (f, g) ↦ ground arith ];
    unused =
        λ id e. let (a, b) = h.unused id (omega arith) in (ground (arith, find_after id), rw q b);
  }
