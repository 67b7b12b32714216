-- ===== src/Wallet/Interference.antt =====
-- `deductBalance` and `lockBalance` (kahade-backend/src/core/wallet/wallet.service.ts) while other
-- transactions commit between their read and their write.
use rekberkan.Base.{ℕ, suc, ◌+◌, ◌<◌, ◌≡◌, refl, Option, some, arith, inl, inr, Bool-cases, sym}
use mathlib.Core.Path.{subst}
use rekberkan.Base.Int.{leb_ℤ, ℤ, ◌≤ℤ◌, ◌<ℤ◌, 0ℤ, int_laws}
use rekberkan.Base.Table.{find_by-update_by, find_by-key}
use rekberkan.Store.{Store, Wallet, Result, ok, err, Error}
use rekberkan.Wallet.Rows.{find_wallet, put_wallet, available, debit, lock}
use rekberkan.Wallet.Retry.{
  Others, max_retries, alone, deduct_attempt, lock_attempt, with_retries, deduct_balance,
  lock_balance,
}
use rekberkan.Wallet.Rounds.{
  with_retries_inv, committed, with_retries-ok, deduct_attempt-lost, deduct_attempt-ok,
  deduct_attempt-err, lock_attempt-ok, lock_attempt-err,
}
use rekberkan.Wallet.Bounds.{IsSound, IsSolvent, put_found-IsSolvent, find_wallet-IsSound}

-- What the loops rely on: the others keep the bounds, and whoever takes from what is available to the
-- user counts the version of the wallet up.
pub record IsFair (u : ℕ) (others : Others) : Type 0 where
  pub keeps : (i : ℕ) (s : Store) → IsSolvent s → IsSolvent (others i s)
  pub versioned :
      (i : ℕ) (s : Store) (w w' : Wallet)
      → find_wallet u s ≡ some w
      → find_wallet u (others i s) ≡ some w'
      → w'.version ≡ w.version
      → available w ≤ℤ available w'

debit-IsSound :
    (amount : ℤ) (w : Wallet) → amount ≤ℤ available w → IsSound w → IsSound (debit amount w)
debit-IsSound amount w p h = omega int_laws

lock-IsSound :
    (amount : ℤ) (w : Wallet)
    → 0ℤ <ℤ amount
    → amount ≤ℤ available w
    → IsSound w
    → IsSound (lock amount w)
lock-IsSound amount w q p h = omega int_laws

-- What is available is the same on both reads, if the version is.
same_available :
    (u i : ℕ) (others : Others) (s : Store) (read w : Wallet) (amount : ℤ)
    → IsFair u others
    → find_wallet u s ≡ some read
    → find_wallet u (others i s) ≡ some w
    → w.version ≡ read.version
    → amount ≤ℤ available read
    → amount ≤ℤ available w
same_available u i others s read w amount fair e f v q =
    omega (int_laws, fair.versioned i s read w e f v)

deduct_attempt-IsSolvent :
    (others : Others) (u : ℕ) (amount : ℤ)
    → IsFair u others
    → (i : ℕ) (s : Store) → IsSolvent s
    → IsSolvent (deduct_attempt u amount (others i) s).1
deduct_attempt-IsSolvent others u amount fair i s h = go (deduct_attempt u amount (others i) s) refl
  where
    go :
        (r : Result (Option Wallet) × Store)
        → deduct_attempt u amount (others i) s ≡ r
        → IsSolvent r.1
    go (err e, t) q = elim (deduct_attempt-err u amount (others i) s t e q) [
      | inl p ↦ subst IsSolvent (sym p) h
      | inr p ↦ subst IsSolvent (sym p) (fair.keeps i s h)
    ]
    go (ok r, t) q =
        let (read, w, e, f, v, c, _, p) = deduct_attempt-ok u amount (others i) s t r q in
        let sound = find_wallet-IsSound u w (others i s) (fair.keeps i s h) f in
        subst IsSolvent (sym p) (
          put_found-IsSolvent u (debit amount) w (others i s) (fair.keeps i s h) f
            (debit-IsSound amount w (same_available u i others s read w amount fair e f v c) sound))

lock_attempt-IsSolvent :
    (others : Others) (u : ℕ) (amount : ℤ)
    → 0ℤ <ℤ amount
    → IsFair u others
    → (i : ℕ) (s : Store) → IsSolvent s
    → IsSolvent (lock_attempt u amount (others i) s).1
lock_attempt-IsSolvent others u amount pos fair i s h = go (lock_attempt u amount (others i) s) refl
  where
    go :
        (r : Result (Option Wallet) × Store)
        → lock_attempt u amount (others i) s ≡ r
        → IsSolvent r.1
    go (err e, t) q = elim (lock_attempt-err u amount (others i) s t e q) [
      | inl p ↦ subst IsSolvent (sym p) h
      | inr p ↦ subst IsSolvent (sym p) (fair.keeps i s h)
    ]
    go (ok r, t) q =
        let (read, w, e, f, v, c, _, p) = lock_attempt-ok u amount (others i) s t r q in
        let sound = find_wallet-IsSound u w (others i s) (fair.keeps i s h) f in
        subst IsSolvent (sym p) (
          put_found-IsSolvent u (lock amount) w (others i s) (fair.keeps i s h) f (
            lock-IsSound amount w pos (same_available u i others s read w amount fair e f v c)
              sound))

-- `deductBalance` keeps the bounds of every wallet, with whatever fair transactions between its
-- reads and its writes, after any number of retries, and however it ends.
pub deduct_balance-IsSolvent :
    (others : Others) (retries u : ℕ) (amount : ℤ) (s : Store)
    → IsFair u others
    → IsSolvent s
    → IsSolvent (deduct_balance others retries u amount s).1
unfolding deduct_balance
deduct_balance-IsSolvent others retries u amount s fair h = ground (
  arith,
  with_retries_inv IsSolvent others (deduct_attempt u amount) Error.optimistic_lock
      (deduct_attempt-IsSolvent others u amount fair) retries 0 Error.internal s h,
)

-- `lockBalance` keeps the bounds of every wallet under the same conditions.
pub lock_balance-IsSolvent :
    (others : Others) (u : ℕ) (amount : ℤ) (s : Store)
    → IsFair u others
    → IsSolvent s
    → IsSolvent (lock_balance others u amount s).1
unfolding lock_balance
lock_balance-IsSolvent others u amount s fair h = elim (Bool-cases (leb_ℤ amount 0ℤ)) [
  | inl e ↦ ground arith
  | inr e ↦ ground (
    arith,
    with_retries_inv IsSolvent others (lock_attempt u amount) Error.internal
        (lock_attempt-IsSolvent others u amount (ground arith) fair) max_retries 0 Error.internal s
        h,
  )
]

from_start : (k n : ℕ) → k < 0 + n → k < n
from_start k n h = omega (arith, h)

-- One round, of those allowed, has taken the tables `s` to `t`: what the others have committed up to
-- its write, and one debit on top of it, of an amount that was there.
abbrev pub Debits : Others → ℕ → ℕ → ℤ → Store → Store → Option Wallet → Type 0
Debits others retries u amount s t r =
    (k : ℕ) × (w : Wallet) × (k < retries)
    × (find_wallet u (committed others (suc k) s) ≡ some w)
    × (0ℤ <ℤ amount)
    × (amount ≤ℤ available w)
    × (r ≡ some (debit amount w))
    × (t ≡ put_wallet u (debit amount) (committed others (suc k) s))

-- A `deductBalance` that returns has debited the amount, positive and within what is available,
-- exactly once: the tables that it leaves are those that it began with, with what the other
-- transactions have committed up to the round that returned, and one debit of the wallet as they have
-- left it; the rounds before have written nothing.
pub deduct_balance-ok :
    (others : Others) (retries u : ℕ) (amount : ℤ) (s t : Store) (r : Option Wallet)
    → IsFair u others
    → deduct_balance others retries u amount s ≡ (ok r, t)
    → Debits others retries u amount s t r
unfolding deduct_balance
deduct_balance-ok others retries u amount s t r fair h = elim (Bool-cases (leb_ℤ amount 0ℤ)) [
  | inl e ↦ absurd (ground arith)
  | inr e ↦
      let (k, b, q) =
        with_retries-ok others (deduct_attempt u amount) Error.optimistic_lock
          (λ i x y z. deduct_attempt-lost u amount (others i) x y z) retries 0 Error.internal s t r
          (ground arith) in
      let before = committed others k s in
      let (read, w, f, g, v, c, p, z) = deduct_attempt-ok u amount (others k) before t r q in
      (
        k,
        w,
        from_start k retries b,
        g,
        ground arith,
        same_available u k others before read w amount fair f g v c,
        p,
        z,
      )
]

-- With no other transaction, a positive amount within what is available is debited at once.
pub deduct_balance-alone :
    (retries u : ℕ) (amount : ℤ) (w : Wallet) (s : Store)
    → find_wallet u s ≡ some w
    → 0ℤ <ℤ amount
    → amount ≤ℤ available w
    → amount ≤ℤ w.balance_minor
    → deduct_balance alone (suc retries) u amount s
      ≡ (ok (some (debit amount w)), put_wallet u (debit amount) s)
unfolding deduct_balance with_retries deduct_attempt
deduct_balance-alone retries u amount w s e p c b = ground (
  arith,
  find_by-update_by Wallet.user_id u u (debit amount) s.wallets (λ x. refl),
  find_by-key Wallet.user_id u w s.wallets e,
)
