-- ===== src/Wallet/Outcomes.antt =====
-- What the operations of the wallet service have done, by how they ended: the lemmas that
-- the bounds, the sums and the other services rest on.
use rekberkan.Base.{ℕ, ◌≡◌, some, arith, Option-cases, inl, inr}
use rekberkan.Base.Int.{ℤ, ◌≤ℤ◌, ◌<ℤ◌, 0ℤ}
use rekberkan.Store.{Store, Wallet, ok, err, Error}
use rekberkan.Wallet.Rows.{find_wallet, put_wallet, unlock}
use rekberkan.Wallet.Moves.{unlock_balance}

pub unlock_balance-ok :
    (u : ℕ) (amount : ℤ) (s t : Store) (r : Wallet)
    → unlock_balance u amount s ≡ (ok r, t)
    → (w : Wallet) × (find_wallet u s ≡ some w)
      × (0ℤ <ℤ amount)
      × (amount ≤ℤ w.locked_minor)
      × (r ≡ unlock amount w)
      × (t ≡ put_wallet u (unlock amount) s)
unfolding unlock_balance
unlock_balance-ok u amount s t r h = elim (Option-cases (find_wallet u s)) [
  | inl e ↦ ground arith
  | inr (w, e) ↦ (w, ground arith, ground arith, ground arith, ground arith, ground arith)
]

unlock_balance-err :
    (u : ℕ) (amount : ℤ) (s t : Store) (e : Error) → unlock_balance u amount s ≡ (err e, t) → t ≡ s
unfolding unlock_balance
unlock_balance-err u amount s t e h = ground arith
