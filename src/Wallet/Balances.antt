-- ===== src/Wallet/Balances.antt =====
-- `getBalance` (kahade-backend/src/core/wallet/wallet.service.ts): the wallet that it reads, or that
-- it makes.
use rekberkan.Base.{ℕ, ◌≡◌, some, ◌⊎◌, [], ◌∷◌, arith, inl, inr, Option-cases}
use rekberkan.Base.Int.{0ℤ, int_laws}
use rekberkan.Base.Table.{find_by-append}
use rekberkan.Store.{Store, Wallet, ok, idr}
use rekberkan.Wallet.Rows.{find_wallet, available}
use rekberkan.Wallet.Moves.{WalletBalance, get_balance, create_wallet, insert_wallet, new_wallet}

-- The balance is that of the user's wallet, and nothing is written; or the wallet is new and empty.
pub get_balance-cases :
    (u : ℕ) (s t : Store) (b : WalletBalance)
    → get_balance u s ≡ (ok b, t)
    → ((w : Wallet) × (find_wallet u s ≡ some w) × (t ≡ s) × (b.available_minor ≡ available w))
      ⊎ ((w : Wallet) × (find_wallet u t ≡ some w)
          × (available w ≡ 0ℤ)
          × (t.escrows ≡ s.escrows)
          × (t.orders ≡ s.orders))
unfolding get_balance create_wallet insert_wallet
get_balance-cases u s t b h = elim (Option-cases (find_wallet u s)) [
  | inr (w, e) ↦ inl (w, e, ground arith, ground arith)
  | inl e ↦ inr (
    new_wallet s.next_id u idr,
    ground (arith, find_by-append Wallet.user_id u s.wallets (new_wallet s.next_id u idr ∷ [])),
    grind int_laws,
    ground arith,
    ground arith,
  )
]
