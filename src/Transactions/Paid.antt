-- ===== src/Transactions/Paid.antt =====
-- What `pay` of kahade-backend/src/core/transaction/transaction.service.ts has checked and done when it
-- returns.
use rekberkan.Base.{
  ℕ, false, ◌≡◌, refl, ◌∙◌, not, Option, some, is_id, arith, inl, inr, Option-cases, [], ◌∷◌,
}
use rekberkan.Base.Int.{ℤ}
use rekberkan.Base.Table.{find_by, find_by-append, find_by-update_by}
use rekberkan.Store.{
  Store, Wallet, EscrowHold, EscrowHoldStatus, Order, OrderStatus, Action, Result, ok, err, Error,
  >>=-eq-ok,
}
use rekberkan.Store.Returns.{found, unless_raised}
use rekberkan.Wallet.Rows.{find_wallet}
use rekberkan.Wallet.Retry.{alone, lock_balance}
use rekberkan.Wallet.Alone.{lock_balance-ok, lock_balance-sums}
use rekberkan.Escrow.Rows.{find_order, update_order}
use rekberkan.Escrow.Opened.{Locks, update_order-rows}
use rekberkan.Orders.Rows.{buyer_id, seller_id, is_accepted}
use rekberkan.Orders.Writes.{is_id→eq}
use rekberkan.Transactions.Rows.{instead, caught, insert_hold, new_hold, wallet_of}
use rekberkan.Transactions.Paying.{total_to_pay, pay_row, pay_transaction}

pub caught-ok :
    {A : Type 0} (e : Error) (m : Action A) (s t : Store) (a : A)
    → caught e m s ≡ (ok a, t)
    → m s ≡ (ok a, t)
caught-ok {A} e m s t a h = go (m s) h
  where
    go : (r : Result A × Store) → instead e r ≡ (ok a, t) → r ≡ (ok a, t)
    go (ok b, u) g = g
    go (err x, u) g = absurd (cc)

accepted_status : (st : OrderStatus) → not (is_accepted st) ≡ false → st ≡ OrderStatus.accepted
accepted_status st h = ground arith

-- The escrow of an order is held, for an amount.
abbrev pub Holds : ℕ → ℤ → Store → Type 0
Holds id amount t =
    (e : EscrowHold) × (find_by EscrowHold.order_id id t.escrows ≡ some e)
    × (e.status ≡ EscrowHoldStatus.held)
    × (e.amount_minor ≡ amount)

Holds-kept :
    (id : ℕ) (amount : ℤ) (s t : Store)
    → t.escrows ≡ s.escrows
    → Holds id amount s
    → Holds id amount t
Holds-kept id amount s t q (e, a, b, c) = (e, rw q a, b, c)

insert_hold-ok :
    (id wallet : ℕ) (seller : Option ℕ) (amount : ℤ) (s t : Store) (e : EscrowHold)
    → insert_hold id wallet seller amount s ≡ (ok e, t)
    → Holds id amount t × (t.orders ≡ s.orders) × (t.wallets ≡ s.wallets)
unfolding insert_hold
insert_hold-ok id wallet seller amount s t e h =
    let new = new_hold s.next_id id wallet seller amount in
    elim (Option-cases (find_by EscrowHold.order_id id s.escrows)) [
      | inl p ↦ (
        (
          new,
          ground (arith, find_by-append EscrowHold.order_id id s.escrows (new ∷ [])),
          refl,
          refl,
        ),
        ground arith,
        ground arith,
      )
      | inr (x, p) ↦ absurd (ground arith)
    ]

lock_rows :
    (user : ℕ) (amount : ℤ) (s t : Store) (r : Option Wallet)
    → lock_balance alone user amount s ≡ (ok r, t)
    → Locks user amount s t × (t.orders ≡ s.orders)
lock_rows user amount s t r h =
    let (w, a, p, q, j) = lock_balance-ok user amount s t r h in
    let (b, l) = lock_balance-sums user amount s t r h in ((w, a, p, q, b, l), rw j refl)

pub Locks-kept :
    (user : ℕ) (amount : ℤ) (s t u : Store)
    → u.wallets ≡ t.wallets
    → Locks user amount s t
    → Locks user amount s u
Locks-kept user amount s t u e (w, a, p, q, b, l) = (w, a, p, q, rw e b, rw e l)

-- What a payment has found and done
abbrev pub Paid : ℕ → ℕ → ℕ → Store → Store → Order → Type 0
Paid now user id s t r =
    (o : Order) × (find_order id s ≡ some o)
    × (buyer_id o ≡ some user)
    × (o.status ≡ OrderStatus.accepted)
    × Locks user (total_to_pay o) s t
    × Holds id (total_to_pay o) t
    × (r ≡ pay_row now o)
    × (find_order id t ≡ some r)

pay_row-found :
    (now id : ℕ) (o x : Order) (s s2 t : Store) (r : Order)
    → find_order id s ≡ some o
    → s2.orders ≡ s.orders
    → update_order id (pay_row now) s2 ≡ (ok r, t)
    → (r ≡ pay_row now o) × (find_order id t ≡ some r)
pay_row-found now id o x s s2 t r p e h =
    let (y, a, b, c, d, f) = update_order-rows id (pay_row now) s2 t r h in
    let new = find_by-update_by Order.id id id (pay_row now) s2.orders (λ z. refl) in
    (ground arith, ground arith)

-- When `pay` returns, beside no other transaction: the caller is the buyer of an accepted order; the
-- amount with the buyer's part of the fee was available, is positive and is now locked, and the
-- balances are the same in total; the order has an escrow that holds as much, and is paid.
pub pay_transaction-ok :
    (now user id : ℕ) (s t : Store) (r : Order)
    → pay_transaction alone now user id s ≡ (ok r, t)
    → Paid now user id s t r
unfolding pay_transaction
pay_transaction-ok now user id s t r h =
    let (o, a, h1) = found Error.not_found (find_order id) _ s t r h in
    let (b, h2) = unless_raised (not (is_id (buyer_id o) user)) Error.forbidden _ s t r h1 in
    let (c, h3) = unless_raised (not (is_accepted o.status)) Error.bad_request _ s t r h2 in
    let (l, s1, p1, h4) =
      >>=-eq-ok (caught Error.bad_request (lock_balance alone user (total_to_pay o))) _ s h3 in
    let (w, d, h5) = found Error.bad_request (find_wallet user) _ s1 t r h4 in
    let (e, s2, p2, h6) =
      >>=-eq-ok (insert_hold id w.id (wallet_of (seller_id o) s1) (total_to_pay o))
        (λ _. update_order id (pay_row now)) s1 h5 in
    let (money, same) =
      lock_rows user (total_to_pay o) s s1 l
        (caught-ok Error.bad_request (lock_balance alone user (total_to_pay o)) s s1 l p1) in
    let (hold, orders, wallets) = insert_hold-ok id w.id _ (total_to_pay o) s1 s2 e p2 in
    let (y, k1, k2, k3, k4, k5) = update_order-rows id (pay_row now) s2 t r h6 in
    let (result, last) = pay_row-found now id o o s s2 t r a (orders ∙ same) h6 in
    (
      o,
      a,
      is_id→eq (buyer_id o) user b,
      accepted_status o.status c,
      Locks-kept user (total_to_pay o) s s1 t (k4 ∙ wallets) money,
      Holds-kept id (total_to_pay o) s2 t k5 hold,
      result,
      last,
    )
