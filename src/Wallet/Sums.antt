-- ===== src/Wallet/Sums.antt =====
-- What the operations of kahade-backend/src/core/wallet/wallet.service.ts do to the sums over all
-- wallets: which money they move, and that they lose and make none.
use rekberkan.Base.{ℕ, ◌≡◌, refl, some, arith, Option-cases, inl, inr, [], ◌∷◌}
use mathlib.Core.Option
use rekberkan.Base.{if◌then◌else◌, ◌==◌}
use rekberkan.Base.Int.{ℤ, ◌+ℤ◌, ◌≤ℤ◌, ◌<ℤ◌, 0ℤ, int_laws}
use rekberkan.Base.Table.{
  sum_rows, sum_rows-update_by, sum_rows-append, find_by-update_by, find_by-append,
}
use rekberkan.Store.{Store, Wallet, Currency, idr, ok}
use rekberkan.Wallet.Rows.{find_wallet, put_wallet, credit, spend_locked}
use rekberkan.Wallet.Moves.{new_wallet, insert_wallet, create_wallet, transfer_locked_balance}
use rekberkan.Wallet.Bounds.{find-create_wallet}

abbrev pub total_balance : Store → ℤ
total_balance s = sum_rows Wallet.balance_minor s.wallets

abbrev pub total_locked : Store → ℤ
total_locked s = sum_rows Wallet.locked_minor s.wallets

-- Both sums under a write to one wallet.
abbrev pub PutSums : ℕ → (Wallet → Wallet) → Wallet → Store → Type 0
PutSums u f w s =
    (total_balance (put_wallet u f s) +ℤ w.balance_minor ≡ total_balance s +ℤ (f w).balance_minor)
    × (total_locked (put_wallet u f s) +ℤ w.locked_minor ≡ total_locked s +ℤ (f w).locked_minor)

pub put_wallet-sums :
    (u : ℕ) (f : Wallet → Wallet) (w : Wallet) (s : Store)
    → find_wallet u s ≡ some w
    → PutSums u f w s
put_wallet-sums u f w s e = (
  sum_rows-update_by Wallet.balance_minor Wallet.user_id u f w s.wallets e,
  sum_rows-update_by Wallet.locked_minor Wallet.user_id u f w s.wallets e,
)

-- The wallets of the others under a write to one.
pub find-put_wallet :
    (v u : ℕ) (f : Wallet → Wallet) (s : Store)
    → ((w : Wallet) → (f w).user_id ≡ w.user_id)
    → find_wallet v (put_wallet u f s)
      ≡ (if u == v then Option.map f (find_wallet v s) else find_wallet v s)
find-put_wallet v u f s k = find_by-update_by Wallet.user_id v u f s.wallets k

pub create_wallet-sums :
    (u : ℕ) (c : Currency) (s : Store)
    → (total_balance (create_wallet u c s).1 ≡ total_balance s)
      × (total_locked (create_wallet u c s).1 ≡ total_locked s)
unfolding create_wallet insert_wallet
create_wallet-sums u c s = elim (Option-cases (find_wallet u s)) [
  | inl e ↦ grind (
    int_laws,
    sum_rows-append Wallet.balance_minor s.wallets (new_wallet s.next_id u c ∷ []),
    sum_rows-append Wallet.locked_minor s.wallets (new_wallet s.next_id u c ∷ []),
  )
  | inr (w, e) ↦ ground arith
]

pub find-created :
    (u : ℕ) (c : Currency) (s : Store)
    → (w : Wallet) × (find_wallet u (create_wallet u c s).1 ≡ some w)
unfolding create_wallet insert_wallet
find-created u c s = elim (Option-cases (find_wallet u s)) [
  | inl e ↦ (
    new_wallet s.next_id u c,
    ground (arith, find_by-append Wallet.user_id u s.wallets (new_wallet s.next_id u c ∷ [])),
  )
  | inr (w, e) ↦ (w, ground arith)
]

-- Between two wallets that exist, a positive amount that is locked in the first is moved.
pub transfer_locked_balance_lem :
    (from to : ℕ) (amount : ℤ) (w v : Wallet) (s : Store)
    → find_wallet from s ≡ some w
    → find_wallet to s ≡ some v
    → 0ℤ <ℤ amount
    → amount ≤ℤ w.locked_minor
    → let t = put_wallet to (credit amount) (put_wallet from (spend_locked amount) s) in
      transfer_locked_balance from to amount s ≡ (ok (find_wallet from t, find_wallet to t), t)
unfolding transfer_locked_balance
transfer_locked_balance_lem from to amount w v s e f p q =
    ground (arith, find-put_wallet to from (spend_locked amount) s (λ x. refl))

create_wallet-ok :
    (u : ℕ) (c : Currency) (s : Store) → (w : Wallet) × ((create_wallet u c s).0 ≡ ok w)
unfolding create_wallet insert_wallet
create_wallet-ok u c s = elim (Option-cases (find_wallet u s)) [
  | inl e ↦ (new_wallet s.next_id u c, ground arith)
  | inr (w, e) ↦ (w, ground arith)
]

create_wallet_of_found :
    (u : ℕ) (c : Currency) (w : Wallet) (s : Store)
    → find_wallet u s ≡ some w
    → create_wallet u c s ≡ (ok w, s)
unfolding create_wallet
create_wallet_of_found u c w s e = ground arith

-- The same to a user who may have no wallet yet: the call creates it first.
pub transfer_creating :
    (from to : ℕ) (amount : ℤ) (w v : Wallet) (s : Store)
    → find_wallet from s ≡ some w
    → find_wallet to (create_wallet to idr s).1 ≡ some v
    → 0ℤ <ℤ amount
    → amount ≤ℤ w.locked_minor
    → let t =
        put_wallet to
          (credit amount)
          (put_wallet from (spend_locked amount) (create_wallet to idr s).1) in
      transfer_locked_balance from to amount s ≡ (ok (find_wallet from t, find_wallet to t), t)
unfolding transfer_locked_balance
transfer_creating from to amount w v s e f p q = elim (Option-cases (find_wallet to s)) [
  | inl g ↦ ground (
    arith,
    (create_wallet-ok to idr s).1,
    find-create_wallet from to idr w s e,
    find-put_wallet to from (spend_locked amount) (create_wallet to idr s).1 (λ x. refl),
  )
  | inr (x, g) ↦ ground (
    arith,
    create_wallet_of_found to idr x s g,
    find-put_wallet to from (spend_locked amount) s (λ y. refl),
  )
]
