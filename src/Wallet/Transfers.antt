-- ===== src/Wallet/Transfers.antt =====
-- How transfers of locked money end (kahade-backend/src/core/wallet/wallet.service.ts), and what they do
-- to the sums over all wallets.
use rekberkan.Base.{ℕ, ◌≡◌, refl, ◌∙◌, Option, some, arith, Option-cases, inl, inr, Bool-cases}
use rekberkan.Base.{if◌then◌else◌, ◌==◌}
use rekberkan.Base.Int.{ℤ, ◌+ℤ◌, ◌-ℤ◌, ◌≤ℤ◌, ◌<ℤ◌, 0ℤ, int_laws, leb_ℤ, ltb_ℤ}
use rekberkan.Store.{Store, Wallet, idr, Result, ok, err, Error}
use rekberkan.Wallet.Rows.{find_wallet, put_wallet, credit, spend_locked}
use rekberkan.Wallet.Moves.{create_wallet, transfer_locked_balance}
use rekberkan.Wallet.Bounds.{find-create_wallet}
use rekberkan.Wallet.Sums.{
  total_balance, total_locked, put_wallet-sums, find-put_wallet, create_wallet-sums, find-created,
  transfer_creating,
}

-- What a transfer that was asked for in these tables may have led to.
data Transfer (from to : ℕ) (amount : ℤ) (s : Store)
    (r : Result (Option Wallet × Option Wallet) × Store) : Type 0 where
  refused : (e : Error) → r ≡ (err e, s) → Transfer from to amount s r
  moved :
      (w v : Wallet) (a : Option Wallet × Option Wallet)
      → 0ℤ <ℤ amount
      → find_wallet from (create_wallet to idr s).1 ≡ some w
      → amount ≤ℤ w.locked_minor
      → find_wallet to (put_wallet from (spend_locked amount) (create_wallet to idr s).1) ≡ some v
      → r ≡ (
        ok a,
        put_wallet to
            (credit amount)
            (put_wallet from (spend_locked amount) (create_wallet to idr s).1),
      )
      → Transfer from to amount s r

find_spent :
    (to from : ℕ) (amount : ℤ) (v : Wallet) (s : Store)
    → find_wallet to s ≡ some v
    → (x : Wallet) × (find_wallet to (put_wallet from (spend_locked amount) s) ≡ some x)
find_spent to from amount v s e = elim (Bool-cases (from == to)) [
  | inl q ↦ (
    spend_locked amount v,
    ground (arith, find-put_wallet to from (spend_locked amount) s (λ x. refl)),
  )
  | inr q ↦ (v, ground (arith, find-put_wallet to from (spend_locked amount) s (λ x. refl)))
]

Transfer-Transfer :
    (from to : ℕ) (amount : ℤ) (s : Store)
    → Transfer from to amount s (transfer_locked_balance from to amount s)
Transfer-Transfer from to amount s = elim (Option-cases (find_wallet from s)) [
  | inl e ↦
      refused (if leb_ℤ amount 0ℤ then Error.amount_not_positive else Error.wallet_not_found)
        (unfold transfer_locked_balance in ground arith)
  | inr (w, e) ↦ elim (Bool-cases (leb_ℤ amount 0ℤ)) [
    | inl p ↦ refused Error.amount_not_positive (unfold transfer_locked_balance in ground arith)
    | inr p ↦ elim (Bool-cases (ltb_ℤ w.locked_minor amount)) [
      | inl q ↦ refused Error.bad_request (unfold transfer_locked_balance in ground arith)
      | inr q ↦
          let (v, f) = find-created to idr s in
          let (x, g) = find_spent to from amount v (create_wallet to idr s).1 f in
          moved w x _ (ground arith) (find-create_wallet from to idr w s e) (ground arith) g
            (transfer_creating from to amount w v s e f (ground arith) (ground arith))
    ]
  ]
]

-- A transfer of a positive amount that is locked returns.
pub transfer_returns :
    (from to : ℕ) (amount : ℤ) (w : Wallet) (s : Store)
    → find_wallet from s ≡ some w
    → 0ℤ <ℤ amount
    → amount ≤ℤ w.locked_minor
    → (a : Option Wallet × Option Wallet) × (t : Store) × (transfer_locked_balance from to amount s
        ≡ (ok a, t))
transfer_returns from to amount w s e p q =
    let (v, f) = find-created to idr s in (_, _, transfer_creating from to amount w v s e f p q)

-- How a transfer of an amount may end that began in the given tables: a throw changes nothing; a
-- return keeps the sum of all balances and lowers the sum of what is locked by the amount.
abbrev pub MovesLocked : {A : Type 0} → ℤ → Store → Result A × Store → Type 0
MovesLocked amount s (err e, t) = t ≡ s
MovesLocked amount s (ok a, t) =
    (0ℤ <ℤ amount)
    × (total_balance t ≡ total_balance s)
    × (total_locked t +ℤ amount ≡ total_locked s)

-- Integers: what one write takes the other gives, or does not.
shift_back : (x y z a b m : ℤ) → y +ℤ a ≡ x +ℤ (a -ℤ m) → z +ℤ b ≡ y +ℤ (b +ℤ m) → z ≡ x
shift_back x y z a b m p q = grind int_laws

shift_down : (x y z a b m : ℤ) → y +ℤ a ≡ x +ℤ (a -ℤ m) → z +ℤ b ≡ y +ℤ b → z +ℤ m ≡ x
shift_down x y z a b m p q = grind int_laws

moved-sums :
    (from to : ℕ) (amount : ℤ) (w v : Wallet) (s : Store)
    → find_wallet from s ≡ some w
    → find_wallet to (put_wallet from (spend_locked amount) s) ≡ some v
    → let t = put_wallet to (credit amount) (put_wallet from (spend_locked amount) s) in
      (total_balance t ≡ total_balance s) × (total_locked t +ℤ amount ≡ total_locked s)
moved-sums from to amount w v s e f =
    let s' = put_wallet from (spend_locked amount) s in
    let (b, l) = put_wallet-sums from (spend_locked amount) w s e in
    let (b', l') = put_wallet-sums to (credit amount) v s' f in
    (
      shift_back (total_balance s) (total_balance s') _ w.balance_minor v.balance_minor amount b b',
      shift_down (total_locked s) (total_locked s') _ w.locked_minor v.locked_minor amount l l',
    )

-- A transfer of locked money that throws has changed nothing; one that returns has moved a positive
-- amount: it has kept the sum of all balances and has lowered the sum of what is locked by the
-- amount, also where it has created the receiving wallet.
pub transfer_locked_balance-MovesLocked :
    (from to : ℕ) (amount : ℤ) (s : Store)
    → MovesLocked amount s (transfer_locked_balance from to amount s)
transfer_locked_balance-MovesLocked from to amount s = go (Transfer-Transfer from to amount s)
  where
    go :
        {r : Result (Option Wallet × Option Wallet) × Store}
        → Transfer from to amount s r
        → MovesLocked amount s r
    go (refused e h) = rw h refl
    go (moved w v a p e q f h) =
        let s' = (create_wallet to idr s).1 in
        let (b, l) = create_wallet-sums to idr s in
        let (b', l') = moved-sums from to amount w v s' e f in rw h (p, b' ∙ b, l' ∙ l)
