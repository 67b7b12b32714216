-- ===== src/Wallet/Retry.antt =====
-- The optimistic locking of `deductBalance` and `lockBalance`: a read, a write on the condition that
-- the version is still the one read, and a retry when it is not. What other transactions commit
-- between the read and the write of the i-th attempt is the argument `others i`.
use rekberkan.Base.{ℕ, zero, suc, Bool, true, false, Option, none, some, if◌then◌else◌, ◌==◌, ◌&&◌}
use rekberkan.Base.Int.{ℤ, ltb_ℤ, leb_ℤ, 0ℤ}
use rekberkan.Store.{
  Store, Wallet, Action, Result, ok, err, Error, ◌>>=◌, ◌>>◌, raise_if, gets, or_raise, modify,
}
use rekberkan.Wallet.Rows.{find_wallet, put_wallet, available, debit, lock}

-- What the other transactions commit during each attempt.
abbrev pub Others : Type 0
Others = ℕ → Store → Store

-- No other transaction runs.
abbrev pub alone : Others
alone i s = s

-- `updateMany({ where: { userId, ... } })`: the number of rows written. `userId` is unique.
unfoldable pub update_where : ℕ → (Wallet → Bool) → (Wallet → Wallet) → Action ℕ
update_where u cond f s = elim (find_wallet u s) [
  | none ↦ (ok 0, s)
  | some w ↦ if cond w then (ok 1, put_wallet u f s) else (ok 0, s)
]

-- One round of the loop in `deductBalance`.
unfoldable pub deduct_attempt : ℕ → ℤ → (Store → Store) → Action (Option Wallet)
unfolding update_where
deduct_attempt u amount meanwhile = do
  wallet ← or_raise Error.wallet_not_found (← gets (find_wallet u))
  raise_if (ltb_ℤ (available wallet) amount) (Error.insufficient_balance (available wallet) amount)
  modify meanwhile
  count ←
      update_where u (λ w. w.version == wallet.version && leb_ℤ amount w.balance_minor)
        (debit amount)
  raise_if (count == 0) Error.optimistic_lock
  gets (find_wallet u)

-- One round of the loop in `lockBalance`.
unfoldable pub lock_attempt : ℕ → ℤ → (Store → Store) → Action (Option Wallet)
unfolding update_where
lock_attempt u amount meanwhile = do
  wallet ← or_raise Error.wallet_not_found (← gets (find_wallet u))
  raise_if (ltb_ℤ (available wallet) amount) (Error.insufficient_balance (available wallet) amount)
  modify meanwhile
  count ← update_where u (λ w. w.version == wallet.version) (lock amount)
  raise_if (count == 0) Error.optimistic_lock
  gets (find_wallet u)

-- `error instanceof OptimisticLockError`
abbrev pub is_conflict : Error → Bool
is_conflict Error.optimistic_lock = true
is_conflict _ = false

-- The `catch` of the loops: a conflict goes on to the next round, all else is thrown on.
abbrev pub on_conflict : {A : Type 0} → Action A → Result A × Store → Result A × Store
on_conflict again (ok a, s) = (ok a, s)
on_conflict again (err e, s) = if is_conflict e then again s else (err e, s)

-- The `while (retries < maxRetries)` of both: `left` rounds are left, round `i` runs, and `last` is
-- thrown when no round is left; after a conflict that is `conflict`.
unfoldable pub with_retries :
    {A : Type 0} → Others → ((Store → Store) → Action A) → Error → ℕ → ℕ → Error → Action A
with_retries others attempt conflict zero i last s = (err last, s)
with_retries others attempt conflict (suc left) i last s =
    on_conflict (with_retries others attempt conflict left (suc i) conflict) (attempt (others i) s)

abbrev pub max_retries : ℕ
max_retries = 3

-- `deductBalance`, with the `maxRetries` of its options
unfoldable pub deduct_balance : Others → ℕ → ℕ → ℤ → Action (Option Wallet)
unfolding with_retries deduct_attempt
deduct_balance others retries u amount = do
  raise_if (leb_ℤ amount 0ℤ) Error.amount_not_positive
  with_retries others (deduct_attempt u amount) Error.optimistic_lock retries 0 Error.internal

-- `lockBalance`
unfoldable pub lock_balance : Others → ℕ → ℤ → Action (Option Wallet)
unfolding with_retries lock_attempt
lock_balance others u amount = do
  raise_if (leb_ℤ amount 0ℤ) Error.amount_not_positive
  with_retries others (lock_attempt u amount) Error.internal max_retries 0 Error.internal
