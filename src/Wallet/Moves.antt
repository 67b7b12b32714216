-- ===== src/Wallet/Moves.antt =====
-- The balance operations of `WalletService` that read and write without a retry: `createWallet`,
-- `getOrCreateWallet`, `creditBalance`, `unlockBalance`, `transferLockedBalance`, `getBalance`.
use rekberkan.Base.{ℕ, ◌+◌, Option, none, [], ◌∷◌, ◌++◌}
use rekberkan.Base.Int.{ℤ, ltb_ℤ, leb_ℤ, 0ℤ}
use rekberkan.Store.{
  Wallet, Currency, idr, Action, ok, Error, ◌>>=◌, ◌>>◌, pure, existing_or, raise_if, gets,
  or_raise,
}
use rekberkan.Wallet.Rows.{find_wallet, update_wallet, available, credit, unlock, spend_locked}

-- The row that `wallet.create` writes.
abbrev pub new_wallet : ℕ → ℕ → Currency → Wallet
new_wallet id u currency = record {
  id = id;
  user_id = u;
  currency = currency;
  balance_minor = 0ℤ;
  locked_minor = 0ℤ;
  last_reconciled_at = none;
  version = 0;
}

unfoldable pub insert_wallet : ℕ → Currency → Action Wallet
insert_wallet u currency s =
    let w = new_wallet s.next_id u currency in
    (ok w, record s { wallets = s.wallets ++ w ∷ []; next_id = s.next_id + 1 })

unfoldable pub create_wallet : ℕ → Currency → Action Wallet
unfolding insert_wallet
create_wallet u currency = do
  existing ← gets (find_wallet u)
  existing_or existing (insert_wallet u currency)

unfoldable pub get_or_create_wallet : ℕ → Currency → Action Wallet
unfolding create_wallet
get_or_create_wallet u currency = do
  existing ← gets (find_wallet u)
  existing_or existing (create_wallet u currency)

unfoldable pub credit_balance : ℕ → ℤ → Action Wallet
unfolding create_wallet update_wallet
credit_balance u amount = do
  raise_if (leb_ℤ amount 0ℤ) Error.amount_not_positive
  found ← gets (find_wallet u)
  existing_or found (create_wallet u idr)
  update_wallet u (credit amount)

unfoldable pub unlock_balance : ℕ → ℤ → Action Wallet
unfolding update_wallet
unlock_balance u amount = do
  raise_if (leb_ℤ amount 0ℤ) Error.amount_not_positive
  wallet ← or_raise Error.wallet_not_found (← gets (find_wallet u))
  raise_if (ltb_ℤ wallet.locked_minor amount) Error.bad_request
  update_wallet u (unlock amount)

unfoldable pub transfer_locked_balance : ℕ → ℕ → ℤ → Action (Option Wallet × Option Wallet)
unfolding create_wallet update_wallet
transfer_locked_balance from to amount = do
  raise_if (leb_ℤ amount 0ℤ) Error.amount_not_positive
  from_wallet ← or_raise Error.wallet_not_found (← gets (find_wallet from))
  raise_if (ltb_ℤ from_wallet.locked_minor amount) Error.bad_request
  found ← gets (find_wallet to)
  existing_or found (create_wallet to idr)
  update_wallet from (spend_locked amount)
  update_wallet to (credit amount)
  updated_from ← gets (find_wallet from)
  updated_to ← gets (find_wallet to)
  pure (updated_from, updated_to)

-- `WalletBalanceResult`, with the amounts in minor units where the source divides them by 100.
pub record WalletBalance : Type 0 where
  pub available_minor : ℤ
  pub locked_minor : ℤ
  pub total_minor : ℤ
  pub currency : Currency
  pub last_reconciled_at : Option ℕ

unfoldable pub get_balance : ℕ → Action WalletBalance
unfolding create_wallet
get_balance u = do
  found ← gets (find_wallet u)
  wallet ← existing_or found (create_wallet u idr)
  pure (record {
    available_minor = available wallet;
    locked_minor = wallet.locked_minor;
    total_minor = wallet.balance_minor;
    currency = wallet.currency;
    last_reconciled_at = wallet.last_reconciled_at;
  })
