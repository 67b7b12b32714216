-- ===== src/Wallet/Rows.antt =====
-- Queries on the wallets, and the updates of a wallet's row that the services make
-- (kahade-backend/src/core/wallet/wallet.service.ts, kahade-backend/prisma/schema/20_wallet_ledger.prisma).
use rekberkan.Base.{ℕ, ◌+◌, Option, none, some}
use rekberkan.Base.Int.{ℤ, ◌+ℤ◌, ◌-ℤ◌}
use rekberkan.Base.Table.{find_by, update_by}
use rekberkan.Store.{Store, Wallet, Action, ok, err, Error}

-- `wallet.findUnique({ where: { userId } })`
abbrev pub find_wallet : ℕ → Store → Option Wallet
find_wallet u s = find_by Wallet.user_id u s.wallets

-- The tables with the row of a user's wallet rewritten.
abbrev pub put_wallet : ℕ → (Wallet → Wallet) → Store → Store
put_wallet u f s = record s { wallets = update_by Wallet.user_id u f s.wallets }

-- `wallet.update({ where: { userId } })`, which reports a missing row.
unfoldable pub update_wallet : ℕ → (Wallet → Wallet) → Action Wallet
update_wallet u f s = elim (find_wallet u s) [
  | none ↦ (err Error.record_not_found, s)
  | some w ↦ (ok (f w), put_wallet u f s)
]

abbrev pub available : Wallet → ℤ
available w = w.balance_minor -ℤ w.locked_minor

-- The `data` of the updates; each counts the version up.
abbrev pub debit : ℤ → Wallet → Wallet
debit amount w = record w { balance_minor = w.balance_minor -ℤ amount; version = w.version + 1 }

abbrev pub credit : ℤ → Wallet → Wallet
credit amount w = record w { balance_minor = w.balance_minor +ℤ amount; version = w.version + 1 }

abbrev pub lock : ℤ → Wallet → Wallet
lock amount w = record w { locked_minor = w.locked_minor +ℤ amount; version = w.version + 1 }

abbrev pub unlock : ℤ → Wallet → Wallet
unlock amount w = record w { locked_minor = w.locked_minor -ℤ amount; version = w.version + 1 }

abbrev pub spend_locked : ℤ → Wallet → Wallet
spend_locked amount w = record w {
  balance_minor = w.balance_minor -ℤ amount;
  locked_minor = w.locked_minor -ℤ amount;
  version = w.version + 1;
}
