-- ===== src/Transactions/Again.antt =====
-- Orders that are accepted and paid again (`acceptByInvite`, `pay` of
-- kahade-backend/src/core/transaction/transaction.service.ts).
use rekberkan.Base.{ℕ, ◌≡◌, ◌≢◌, refl, Option, some, arith}
use rekberkan.Base.Int.{ℤ, ◌+ℤ◌, ◌≤ℤ◌, ◌<ℤ◌, 0ℤ}
use rekberkan.Base.Table.{find_by, find_by-update_by}
use rekberkan.Store.{Store, Wallet, EscrowHold, Order, OrderStatus, ok, err, Error, ◌>>◌}
use rekberkan.Wallet.Rows.{find_wallet, put_wallet, available, lock}
use rekberkan.Wallet.Retry.{alone}
use rekberkan.Wallet.Alone.{lock_balance-alone, lock_balance-sums}
use rekberkan.Wallet.Sums.{total_balance, total_locked}
use rekberkan.Escrow.Rows.{find_order}
use rekberkan.Orders.Rows.{buyer_id}
use rekberkan.Transactions.Rows.{find_by_token, insert_hold}
use rekberkan.Transactions.Opening.{accept_by_invite, accept_row}
use rekberkan.Transactions.Paying.{total_to_pay, pay_transaction}
use rekberkan.Transactions.Marked.{put_order, update_order_found, put_order_found}

insert_hold_refused :
    (id wallet : ℕ) (seller : Option ℕ) (amount : ℤ) (e : EscrowHold) (s : Store)
    → find_by EscrowHold.order_id id s.escrows ≡ some e
    → insert_hold id wallet seller amount s ≡ (err Error.unique_violation, s)
unfolding insert_hold
insert_hold_refused id wallet seller amount e s h = ground arith

find_locked :
    (user : ℕ) (amount : ℤ) (w : Wallet) (s : Store)
    → find_wallet user s ≡ some w
    → find_wallet user (put_wallet user (lock amount) s) ≡ some (lock amount w)
find_locked user amount w s h =
    ground (arith, find_by-update_by Wallet.user_id user user (lock amount) s.wallets (λ x. refl))

-- A second payment of an order locks the money before it throws.
pay_again :
    (now user id : ℕ) (o : Order) (e : EscrowHold) (w : Wallet) (s : Store)
    → find_order id s ≡ some o
    → buyer_id o ≡ some user
    → o.status ≡ OrderStatus.accepted
    → find_by EscrowHold.order_id id s.escrows ≡ some e
    → find_wallet user s ≡ some w
    → 0ℤ <ℤ total_to_pay o
    → total_to_pay o ≤ℤ available w
    → pay_transaction alone now user id s
      ≡ (err Error.unique_violation, put_wallet user (lock (total_to_pay o)) s)
unfolding pay_transaction
pay_again now user id o e w s a b c d f p q =
    let s1 = put_wallet user (lock (total_to_pay o)) s in
    ground (
      arith,
      lock_balance-alone user (total_to_pay o) w s f p q,
      find_locked user (total_to_pay o) w s f,
      insert_hold_refused id w.id _ (total_to_pay o) e s1 d,
    )

accept_again :
    (now c token : ℕ) (o : Order) (s : Store)
    → find_by_token now token s ≡ some o
    → find_order o.id s ≡ some o
    → o.initiator_id ≢ c
    → o.counterparty_id ≡ some c
    → accept_by_invite now c token s ≡ (ok (accept_row now o), put_order o.id (accept_row now) s)
unfolding accept_by_invite
accept_again now c token o s a b d h =
    ground (arith, update_order_found o.id (accept_row now) o s b)

-- While the invite of an order is open, its counterparty can accept it again whatever its status. When
-- it has an escrow already, the payment of the buyer then throws, and leaves the amount to pay locked
-- once more, with the balances the same in total.
pub accept_by_invite-then-pay_transaction :
    (now later c user token : ℕ) (o : Order) (e : EscrowHold) (w : Wallet) (s : Store)
    → find_by_token now token s ≡ some o
    → find_order o.id s ≡ some o
    → o.initiator_id ≢ c
    → o.counterparty_id ≡ some c
    → buyer_id o ≡ some user
    → find_by EscrowHold.order_id o.id s.escrows ≡ some e
    → find_wallet user s ≡ some w
    → 0ℤ <ℤ total_to_pay o
    → total_to_pay o ≤ℤ available w
    → (t : Store) × ((accept_by_invite now c token >> pay_transaction alone later user o.id) s
        ≡ (err Error.unique_violation, t))
      × (total_balance t ≡ total_balance s)
      × (total_locked t ≡ total_locked s +ℤ total_to_pay o)
accept_by_invite-then-pay_transaction now later c user token o e w s a b d h k l m p q =
    let s1 = put_order o.id (accept_row now) s in
    let f = put_order_found o.id (accept_row now) o s (λ x. refl) b in
    let paid = pay_again later user o.id (accept_row now o) e w s1 f k refl l m p q in
    let (same, more) =
      lock_balance-sums user (total_to_pay o) s1 (put_wallet user (lock (total_to_pay o)) s1)
        (some (lock (total_to_pay o) w)) (lock_balance-alone user (total_to_pay o) w s1 m p q) in
    (
      put_wallet user (lock (total_to_pay o)) s1,
      rw (accept_again now c token o s a b d h) paid,
      same,
      more,
    )
