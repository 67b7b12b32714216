-- ===== src/Orders/Contested.antt =====
-- A dispute that a party opens and cancels (kahade-backend/src/core/order/order.service.ts).
use rekberkan.Base.{ℕ, ◌≡◌, refl, true, false, Option, none, some, is_some, arith, eq→==}
use rekberkan.Base.Table.{update_by, find_by-update_by}
use rekberkan.Store.{Store, Order, OrderStatus, ok, ◌>>◌}
use rekberkan.Escrow.Rows.{find_order, update_order}
use rekberkan.Orders.Rows.{find_by_id, unless_deleted, is_party, update_status}
use rekberkan.Orders.Payments.{cancel_order, open_dispute}
use rekberkan.Orders.Writes.{written, live}

-- The order and everything else that the two calls leave
abbrev pub LeavesMoney : ℕ → ℕ → Order → Store → Store → Type 0
LeavesMoney later id o s t =
    (find_order id t
      ≡ some (record o { status = OrderStatus.cancelled; cancelled_at = some later }))
    × (t.escrows ≡ s.escrows)
    × (t.wallets ≡ s.wallets)
    × (t.journals ≡ s.journals)

abbrev after : OrderStatus → ℕ → ℕ → Store → Store
after st now id s = record s { orders = update_by Order.id id (written now st (λ x. x)) s.orders }

not_deleted :
    (x : Option Order) (o : Order) → unless_deleted x ≡ some o → is_some o.deleted_at ≡ false
not_deleted none o h = cc
not_deleted (some x) o h = ground arith

open_dispute-eq :
    (now user id : ℕ) (o : Order) (s : Store)
    → find_by_id id s ≡ some o
    → o.status ≡ OrderStatus.paid
    → is_party user o ≡ true
    → open_dispute now user id s
      ≡ (ok (record o { status = OrderStatus.disputed }), after OrderStatus.disputed now id s)
unfolding open_dispute update_status update_order
open_dispute-eq now user id o s a b c = let e = live (find_order id s) o a in rw (a, c, b, e) refl

cancel_order-eq :
    (now user id : ℕ) (o : Order) (s : Store)
    → find_by_id id s ≡ some o
    → o.status ≡ OrderStatus.disputed
    → is_party user o ≡ true
    → cancel_order now user id s ≡ (
      ok (record o { status = OrderStatus.cancelled; cancelled_at = some now }),
      after OrderStatus.cancelled now id s,
    )
unfolding cancel_order update_status update_order
cancel_order-eq now user id o s a b c = let e = live (find_order id s) o a in rw (a, c, b, e) refl

-- A party of a paid order who opens a dispute may cancel the order after it: both calls return, and
-- leave the order cancelled, the escrows, the wallets and the ledger as they were before.
pub open_dispute-then-cancel_order :
    (now later user id : ℕ) (o : Order) (s : Store)
    → find_by_id id s ≡ some o
    → o.status ≡ OrderStatus.paid
    → is_party user o ≡ true
    → (r : Order) × (t : Store) × ((open_dispute now user id >> cancel_order later user id) s
        ≡ (ok r, t))
      × LeavesMoney later id o s t
open_dispute-then-cancel_order now later user id o s a b c =
    let e = live (find_order id s) o a in
    let f = not_deleted (find_order id s) o a in
    let s1 = after OrderStatus.disputed now id s in
    let contested = record o { status = OrderStatus.disputed } in
    let e1 : find_order id s1 ≡ some contested =
      rw
        (
          find_by-update_by Order.id id id (written now OrderStatus.disputed (λ x. x)) s.orders
              (λ _. refl),
          eq→== id id refl,
          e,
        )
        refl in
    let a1 : find_by_id id s1 ≡ some contested = rw (e1, f) refl in
    let t = after OrderStatus.cancelled later id s1 in
    let e2 : find_order id t
        ≡ some (record o { status = OrderStatus.cancelled; cancelled_at = some later }) =
      rw
        (
          find_by-update_by Order.id id id (written later OrderStatus.cancelled (λ x. x)) s1.orders
              (λ _. refl),
          eq→== id id refl,
          e1,
        )
        refl in
    (
      record o { status = OrderStatus.cancelled; cancelled_at = some later },
      t,
      rw (open_dispute-eq now user id o s a b c)
          (cancel_order-eq later user id contested s1 a1 refl c),
      (e2, refl, refl, refl),
    )
