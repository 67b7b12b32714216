-- ===== src/Wallet/Alone.antt =====
-- `lockBalance` (kahade-backend/src/core/wallet/wallet.service.ts) inside a transaction of another
-- service, where no other transaction runs: the first round decides.
use rekberkan.Base.{ℕ, ◌≡◌, refl, Option, some, arith, Option-cases, inl, inr, Bool-cases}
use rekberkan.Base.Int.{ℤ, ◌+ℤ◌, ◌≤ℤ◌, ◌<ℤ◌, 0ℤ, leb_ℤ, ltb_ℤ, int_laws}
use rekberkan.Base.Table.{find_by-update_by, find_by-key}
use rekberkan.Store.{Store, Wallet, ok}
use rekberkan.Wallet.Rows.{find_wallet, put_wallet, available, lock}
use rekberkan.Wallet.Retry.{alone, lock_attempt, with_retries, lock_balance}
use rekberkan.Wallet.Sums.{total_balance, total_locked, put_wallet-sums}

-- A positive amount within what is available is locked at once.
pub lock_balance-alone :
    (u : ℕ) (amount : ℤ) (w : Wallet) (s : Store)
    → find_wallet u s ≡ some w
    → 0ℤ <ℤ amount
    → amount ≤ℤ available w
    → lock_balance alone u amount s ≡ (ok (some (lock amount w)), put_wallet u (lock amount) s)
unfolding lock_balance with_retries lock_attempt
lock_balance-alone u amount w s e p c = ground (
  arith,
  find_by-update_by Wallet.user_id u u (lock amount) s.wallets (λ x. refl),
  find_by-key Wallet.user_id u w s.wallets e,
)

-- What a lock that has returned has found and done
pub lock_balance-ok :
    (u : ℕ) (amount : ℤ) (s t : Store) (r : Option Wallet)
    → lock_balance alone u amount s ≡ (ok r, t)
    → (w : Wallet) × (find_wallet u s ≡ some w)
      × (0ℤ <ℤ amount)
      × (amount ≤ℤ available w)
      × (t ≡ put_wallet u (lock amount) s)
unfolding lock_balance with_retries lock_attempt
lock_balance-ok u amount s t r h = elim (Option-cases (find_wallet u s)) [
  | inl e ↦ absurd (ground arith)
  | inr (w, e) ↦ elim (Bool-cases (leb_ℤ amount 0ℤ)) [
    | inl p ↦ absurd (ground arith)
    | inr p ↦ elim (Bool-cases (ltb_ℤ (available w) amount)) [
      | inl q ↦ absurd (ground arith)
      | inr q ↦ (
        w,
        e,
        ground arith,
        ground arith,
        cc (lock_balance-alone u amount w s e (ground arith) (ground arith)),
      )
    ]
  ]
]

same : (x y b : ℤ) → y +ℤ b ≡ x +ℤ b → y ≡ x
same x y b h = grind int_laws

raised : (x y l m : ℤ) → y +ℤ l ≡ x +ℤ (l +ℤ m) → y ≡ x +ℤ m
raised x y l m h = grind int_laws

-- A lock that has returned has kept the sum of the balances and has added its amount to what is
-- locked.
pub lock_balance-sums :
    (u : ℕ) (amount : ℤ) (s t : Store) (r : Option Wallet)
    → lock_balance alone u amount s ≡ (ok r, t)
    → (total_balance t ≡ total_balance s) × (total_locked t ≡ total_locked s +ℤ amount)
lock_balance-sums u amount s t r h =
    let (w, e, p, q, j) = lock_balance-ok u amount s t r h in
    let (b, l) = put_wallet-sums u (lock amount) w s e in
    rw j (same _ _ w.balance_minor b, raised _ _ w.locked_minor amount l)
