-- ===== src/Wallet/Bounds.antt =====
-- The bounds 0 ≤ locked ≤ balance on every wallet, which the database's optional CHECK constraints
-- (kahade-backend/prisma/migration-constraints-enhanced.sql) also state, under the operations of
-- kahade-backend/src/core/wallet/wallet.service.ts.
use rekberkan.Base.{ℕ, ◌≡◌, some, arith, Option-cases, inl, inr, [], ◌∷◌}
use mathlib.Core.Path.{subst}
use rekberkan.Base.Int.{ℤ, ◌≤ℤ◌, ◌<ℤ◌, 0ℤ, int_laws}
use rekberkan.Base.Table.{All, All-update_by, All-append, find_by-All, find_by-append}
use rekberkan.Store.{Store, Wallet, Currency, idr}
use rekberkan.Wallet.Rows.{find_wallet, put_wallet, update_wallet, credit, unlock, spend_locked}
use rekberkan.Wallet.Moves.{
  new_wallet, insert_wallet, create_wallet, credit_balance, unlock_balance, transfer_locked_balance,
}

abbrev pub IsSound : Wallet → Type 0
IsSound w = (0ℤ ≤ℤ w.locked_minor) × (w.locked_minor ≤ℤ w.balance_minor)

abbrev pub IsSolvent : Store → Type 0
IsSolvent s = All IsSound s.wallets

pub put_wallet-IsSolvent :
    (u : ℕ) (f : Wallet → Wallet) (s : Store)
    → IsSolvent s
    → ((w : Wallet) → find_wallet u s ≡ some w → IsSound w → IsSound (f w))
    → IsSolvent (put_wallet u f s)
put_wallet-IsSolvent u f s h k = All-update_by IsSound Wallet.user_id u f s.wallets h k

insert_wallet-IsSolvent :
    (u : ℕ) (c : Currency) (s : Store) → IsSolvent s → IsSolvent (insert_wallet u c s).1
unfolding insert_wallet
insert_wallet-IsSolvent u c s h = All-append IsSound s.wallets _ h ((omega arith, omega arith), tt)

create_wallet-IsSolvent :
    (u : ℕ) (c : Currency) (s : Store) → IsSolvent s → IsSolvent (create_wallet u c s).1
unfolding create_wallet
create_wallet-IsSolvent u c s h = ground (arith, insert_wallet-IsSolvent u c s h)

-- The same where the row is at hand.
pub put_found-IsSolvent :
    (u : ℕ) (f : Wallet → Wallet) (w : Wallet) (s : Store)
    → IsSolvent s
    → find_wallet u s ≡ some w
    → IsSound (f w)
    → IsSolvent (put_wallet u f s)
put_found-IsSolvent u f w s h e k =
    put_wallet-IsSolvent u f s h (λ x g _. subst (λ y. IsSound (f y)) (cc) k)

pub find_wallet-IsSound :
    (u : ℕ) (w : Wallet) (s : Store) → IsSolvent s → find_wallet u s ≡ some w → IsSound w
find_wallet-IsSound u w s h e = find_by-All IsSound Wallet.user_id u w s.wallets h e

credit-IsSound : (amount : ℤ) (w : Wallet) → 0ℤ <ℤ amount → IsSound w → IsSound (credit amount w)
credit-IsSound amount w p h = omega int_laws

unlock-IsSound :
    (amount : ℤ) (w : Wallet)
    → 0ℤ <ℤ amount
    → amount ≤ℤ w.locked_minor
    → IsSound w
    → IsSound (unlock amount w)
unlock-IsSound amount w p q h = omega int_laws

spend_locked-IsSound :
    (amount : ℤ) (w : Wallet)
    → 0ℤ <ℤ amount
    → amount ≤ℤ w.locked_minor
    → IsSound w
    → IsSound (spend_locked amount w)
spend_locked-IsSound amount w p q h = omega int_laws

-- A credit to the wallet that the tables then hold, as the second half of `creditBalance`.
update-credit-IsSolvent :
    (u : ℕ) (amount : ℤ) (s : Store)
    → 0ℤ <ℤ amount
    → IsSolvent s
    → IsSolvent (update_wallet u (credit amount) s).1
unfolding update_wallet
update-credit-IsSolvent u amount s p h = elim (Option-cases (find_wallet u s)) [
  | inl e ↦ ground arith
  | inr (w, e) ↦ ground (
    arith,
    put_found-IsSolvent u (credit amount) w s h e,
    credit-IsSound amount w p (find_wallet-IsSound u w s h e),
  )
]

-- Crediting a wallet, also one that has to be created first, keeps the bounds.
pub credit_balance-IsSolvent :
    (u : ℕ) (amount : ℤ) (s : Store) → IsSolvent s → IsSolvent (credit_balance u amount s).1
unfolding credit_balance
credit_balance-IsSolvent u amount s h = ground (
  arith,
  create_wallet-IsSolvent u idr s h,
  update-credit-IsSolvent u amount s,
  update-credit-IsSolvent u amount (create_wallet u idr s).1,
)

-- Unlocking keeps the bounds, whether it succeeds or throws.
pub unlock_balance-IsSolvent :
    (u : ℕ) (amount : ℤ) (s : Store) → IsSolvent s → IsSolvent (unlock_balance u amount s).1
unfolding unlock_balance
unlock_balance-IsSolvent u amount s h = elim (Option-cases (find_wallet u s)) [
  | inl e ↦ ground arith
  | inr (w, e) ↦ ground (
    arith,
    put_found-IsSolvent u (unlock amount) w s h e,
    unlock-IsSound amount w,
    find_wallet-IsSound u w s h e,
  )
]

update-spend-IsSolvent :
    (u : ℕ) (amount : ℤ) (w : Wallet) (s : Store)
    → 0ℤ <ℤ amount
    → find_wallet u s ≡ some w
    → amount ≤ℤ w.locked_minor
    → IsSolvent s
    → IsSolvent (update_wallet u (spend_locked amount) s).1
unfolding update_wallet
update-spend-IsSolvent u amount w s p e q h = ground (
  arith,
  put_found-IsSolvent u (spend_locked amount) w s h e,
  spend_locked-IsSound amount w p q (find_wallet-IsSound u w s h e),
)

-- The wallet of a user is still there after another one has been created.
pub find-create_wallet :
    (u v : ℕ) (c : Currency) (w : Wallet) (s : Store)
    → find_wallet u s ≡ some w
    → find_wallet u (create_wallet v c s).1 ≡ some w
unfolding create_wallet insert_wallet
find-create_wallet u v c w s e =
    ground (arith, find_by-append Wallet.user_id u s.wallets (new_wallet s.next_id v c ∷ []))

-- Moving locked money to another wallet keeps the bounds of both, and of the same wallet twice.
pub transfer_locked_balance-IsSolvent :
    (from to : ℕ) (amount : ℤ) (s : Store)
    → IsSolvent s
    → IsSolvent (transfer_locked_balance from to amount s).1
unfolding transfer_locked_balance
transfer_locked_balance-IsSolvent from to amount s h = elim (Option-cases (find_wallet from s)) [
  | inl e ↦ ground arith
  | inr (w, e) ↦
      let s' = (create_wallet to idr s).1 in
      ground (
        arith,
        create_wallet-IsSolvent to idr s h,
        find-create_wallet from to idr w s e,
        update-spend-IsSolvent from amount w s,
        update-spend-IsSolvent from amount w s',
        update-credit-IsSolvent to amount (update_wallet from (spend_locked amount) s).1,
        update-credit-IsSolvent to amount (update_wallet from (spend_locked amount) s').1,
      )
]
