-- ===== src/Promos/Applied.antt =====
-- What a call of `applyVoucher` (kahade-backend/src/core/promo/promo.service.ts) has checked and
-- written when it returns.
use rekberkan.Base.{
  inl, inr, Option-cases, Bool-cases, ap, ℕ, ◌≡◌, refl, Bool, true, false, not, Option, none, some,
  [], ◌∷◌, ◌++◌, ◌<◌, ◌≤◌, arith, ltb, leb,
}
use mathlib.Core.Path.{subst}
use rekberkan.Base.Int.{ℤ}
use rekberkan.Base.Table.{update_by}
use rekberkan.Store.{Store, Voucher, VoucherUsage, Error, Action, ok, >>=-eq-ok, raise_if}
use rekberkan.Store.Returns.{found, committed, unless_raised}
use rekberkan.Promos.Rows.{
  find_promo, find_voucher, usage_count, max_usage_per_user, insert_usage, update_voucher_row,
  update_promo_row, is_taken,
}
use rekberkan.Promos.Checks.{is_active, is_for_other, below_minimum}
use rekberkan.Promos.Applying.{
  ApplyVoucherResult, check_voucher, record_usage, count_promo, apply_locked, apply_tx,
  apply_voucher, new_usage, result_of, counted, usage_of, answered,
}

-- What the checks let pass
pub record Passes (now user : ℕ) (amount : ℤ) (v : Voucher) (s : Store) : Type 0 where
  pub active : is_active v.status ≡ true
  pub started : v.valid_from ≤ now
  pub not_over : now ≤ v.valid_until
  pub left : v.current_usages < v.max_usages
  pub own : is_for_other v.assigned_to_user_id user ≡ false
  pub enough : below_minimum v.min_purchase_minor amount ≡ false
  pub left_for_user : usage_count v.id user s < max_usage_per_user v.promo_id s

active_of : (b : Bool) → not b ≡ false → b ≡ true
active_of true h = refl
active_of false h = cc

le_of_ltb : (a b : ℕ) → ltb a b ≡ false → b ≤ a
le_of_ltb a b h = ground arith

lt_of_leb : (a b : ℕ) → leb a b ≡ false → b < a
lt_of_leb a b h = ground arith

last_guard :
    (c : Bool) (s t : Store) (r : Unit {0})
    → raise_if c Error.bad_request s ≡ (ok r, t)
    → (c ≡ false) × (t ≡ s)
last_guard true s t r h = absurd (ground arith)
last_guard false s t r h = (refl, ground arith)

pub check_voucher-ok :
    (now user : ℕ) (amount : ℤ) (v : Voucher) (s t : Store) (r : Unit {0})
    → check_voucher now user amount v s ≡ (ok r, t)
    → Passes now user amount v s × (t ≡ s)
unfolding check_voucher
check_voucher-ok now user amount v s t r h =
    let (a, h1) = unless_raised (not (is_active v.status)) Error.bad_request _ s t r h in
    let (b, h2) = unless_raised (ltb now v.valid_from) Error.bad_request _ s t r h1 in
    let (c, h3) = unless_raised (ltb v.valid_until now) Error.bad_request _ s t r h2 in
    let (d, h4) = unless_raised (leb v.max_usages v.current_usages) Error.bad_request _ s t r h3 in
    let (e, h5) =
      unless_raised (is_for_other v.assigned_to_user_id user) Error.bad_request _ s t r h4 in
    let (f, h6) =
      unless_raised (below_minimum v.min_purchase_minor amount) Error.bad_request _ s t r h5 in
    let (g, same) =
      last_guard (leb (max_usage_per_user v.promo_id s) (usage_count v.id user s)) s t r h6 in
    (
      record {
        active = active_of _ a;
        started = le_of_ltb _ _ b;
        not_over = le_of_ltb _ _ c;
        left = lt_of_leb _ _ d;
        own = e;
        enough = f;
        left_for_user = lt_of_leb _ _ g;
      },
      same,
    )

pub check_voucher-Passes :
    (now user : ℕ) (amount : ℤ) (v : Voucher) (s : Store)
    → Passes now user amount v s
    → check_voucher now user amount v s ≡ (ok tt, s)
unfolding check_voucher
check_voucher-Passes now user amount v s p = ground arith

-- The rows that a usage adds and counts
pub record Wrote (v : Voucher) (u : VoucherUsage) (s t : Store) : Type 0 where
  pub fresh_key : is_taken u.idempotency_key s ≡ false
  pub usages : t.usages ≡ s.usages ++ u ∷ []
  pub vouchers : t.vouchers ≡ update_by Voucher.id v.id counted s.vouchers
  pub next_id : t.next_id ≡ s.next_id
  pub wallets : t.wallets ≡ s.wallets

insert_usage-ok :
    (u : VoucherUsage) (s t : Store) (r : VoucherUsage)
    → insert_usage u s ≡ (ok r, t)
    → (is_taken u.idempotency_key s ≡ false) × (t ≡ record s { usages = s.usages ++ u ∷ [] })
unfolding insert_usage
insert_usage-ok u s t r h = elim (Bool-cases (is_taken u.idempotency_key s)) [
  | inl e ↦ absurd (ground arith)
  | inr e ↦ (e, ground arith)
]

update_voucher_row-ok :
    (id : ℕ) (f : Voucher → Voucher) (s t : Store) (r : Voucher)
    → update_voucher_row id f s ≡ (ok r, t)
    → t ≡ record s { vouchers = update_by Voucher.id id f s.vouchers }
unfolding update_voucher_row
update_voucher_row-ok id f s t r h = elim (Option-cases (find_voucher id s)) [
  | inl e ↦ absurd (ground arith)
  | inr (v, e) ↦ ground arith
]

count_promo-ok :
    (p : Option ℕ) (s t : Store) (r : Unit {0})
    → count_promo p s ≡ (ok r, t)
    → (t.usages ≡ s.usages)
      × (t.vouchers ≡ s.vouchers)
      × (t.next_id ≡ s.next_id)
      × (t.wallets ≡ s.wallets)
unfolding count_promo update_promo_row
count_promo-ok none s t r h = (ground arith, ground arith, ground arith, ground arith)
count_promo-ok (some p) s t r h = elim (Option-cases (find_promo p s)) [
  | inl e ↦ absurd (ground arith)
  | inr (v, e) ↦ (ground arith, ground arith, ground arith, ground arith)
]

pub record_usage-ok :
    (v : Voucher) (u : VoucherUsage) (s t : Store) (r : Unit {0})
    → record_usage v u s ≡ (ok r, t)
    → Wrote v u s t
unfolding record_usage
record_usage-ok v u s t r h =
    let (a, s1, p, h1) = >>=-eq-ok (insert_usage u) _ s h in
    let (b, s2, q, h2) = >>=-eq-ok (update_voucher_row v.id counted) _ s1 h1 in
    let (free, e1) = insert_usage-ok u s s1 a p in
    let e2 = update_voucher_row-ok v.id counted s1 s2 b q in
    let (x, y, z, w) = count_promo-ok v.promo_id s2 t r h2 in
    record { fresh_key = free; usages = cc; vouchers = cc; next_id = cc; wallets = cc }

-- What a call under a new key has found, checked and written
pub record Applies (locked_row : ℕ → Store → Option Voucher) (code now user : ℕ) (amount : ℤ)
    (order key : Option ℕ) (v : Voucher) (s t : Store) (r : ApplyVoucherResult) : Type 0 where
  pub locked : locked_row code s ≡ some v
  pub passes : Passes now user amount v s
  pub wrote : Wrote v (new_usage v user amount order key) s t
  pub answer : r ≡ result_of v.code (new_usage v user amount order key)

pub apply_locked-ok :
    (now user : ℕ) (amount : ℤ) (order key : Option ℕ) (v : Voucher) (s t : Store)
    (r : ApplyVoucherResult)
    → apply_locked now user amount order key v s ≡ (ok r, t)
    → Passes now user amount v s
      × Wrote v (new_usage v user amount order key) s t
      × (r ≡ result_of v.code (new_usage v user amount order key))
unfolding apply_locked
apply_locked-ok now user amount order key v s t r h =
    let u = new_usage v user amount order key in
    let (a, s1, p, h1) = >>=-eq-ok (check_voucher now user amount v) _ s h in
    let (passes, same) = check_voucher-ok now user amount v s s1 a p in
    let (b, s2, q, h2) = >>=-eq-ok (record_usage v u) _ s1 h1 in
    (
      passes,
      subst (λ x. Wrote v u s x) (ap (λ x. x.1) h2)
          (subst (λ x. Wrote v u x s2) same (record_usage-ok v u s1 s2 b q)),
      ground arith,
    )

unanswered :
    (code : ℕ) (o : Option VoucherUsage) (m : Action ApplyVoucherResult) (s t : Store)
    (r : ApplyVoucherResult)
    → o ≡ none
    → answered code o m s ≡ (ok r, t)
    → m s ≡ (ok r, t)
unanswered code none m s t r n h = h
unanswered code (some u) m s t r n h = absurd (cc)

pub apply_voucher-ok :
    (upper : ℕ → ℕ) (locked_row : ℕ → Store → Option Voucher) (now code user : ℕ) (amount : ℤ)
    (order key : Option ℕ) (s t : Store) (r : ApplyVoucherResult)
    → usage_of key s ≡ none
    → apply_voucher upper locked_row now code user amount order key s ≡ (ok r, t)
    → (v : Voucher) × Applies locked_row (upper code) now user amount order key v s t r
unfolding apply_voucher apply_tx
apply_voucher-ok upper locked_row now code user amount order key s t r n h =
    let h1 =
      committed (apply_tx upper locked_row now code user amount order key) s t r
        (unanswered code _ _ s t r n h) in
    let (v, l, h2) = found Error.bad_request (locked_row (upper code)) _ s t r h1 in
    let (passes, wrote, answer) = apply_locked-ok now user amount order key v s t r h2 in
    (v, record { locked = l; passes = passes; wrote = wrote; answer = answer })

answered_again :
    (code : ℕ) (o : Option VoucherUsage) (m : Action ApplyVoucherResult) (s t : Store)
    (r : ApplyVoucherResult) (u : VoucherUsage)
    → o ≡ some u
    → answered code o m s ≡ (ok r, t)
    → (r ≡ result_of code u) × (t ≡ s)
answered_again code none m s t r u n h = absurd (cc)
answered_again code (some x) m s t r u n h = (ground arith, ground arith)

-- A call under a key that has a usage
pub apply_voucher_again :
    (upper : ℕ → ℕ) (locked_row : ℕ → Store → Option Voucher) (now code user : ℕ) (amount : ℤ)
    (order key : Option ℕ) (s t : Store) (r : ApplyVoucherResult) (u : VoucherUsage)
    → usage_of key s ≡ some u
    → apply_voucher upper locked_row now code user amount order key s ≡ (ok r, t)
    → (r ≡ result_of code u) × (t ≡ s)
unfolding apply_voucher
apply_voucher_again upper locked_row now code user amount order key s t r u e h =
    answered_again code (usage_of key s) _ s t r u e h
