-- ===== src/Orders/Writes.antt =====
-- A write of a status of an order (kahade-backend/src/core/order/order.repository.ts), and what the
-- guards of the order service have found when they pass.
use rekberkan.Base.{ℕ, ◌≡◌, Option, none, some, ap, not, false, ◌||◌, ◌⊎◌, is_id, arith, ==→eq}
use rekberkan.Base.Table.{update_by}
use rekberkan.Store.{Store, Order, OrderStatus, ok}
use rekberkan.Escrow.Rows.{find_order}
use rekberkan.Escrow.Opened.{update_order-rows}
use rekberkan.Orders.Rows.{unless_deleted, update_status, stamp, is_pending, is_accepted}

-- The row of an order whose status has been updated
abbrev pub written : ℕ → OrderStatus → (Order → Order) → Order → Order
written now st f x = stamp now st (f (record x { status = st }))

abbrev pub Writes : ℕ → (Order → Order) → Store → Store → Order → Type 0
Writes id g s t r =
    (x : Order) × (find_order id s ≡ some x)
    × (r ≡ g x)
    × (t.orders ≡ update_by Order.id id g s.orders)
    × (t.wallets ≡ s.wallets)
    × (t.escrows ≡ s.escrows)

pub update_status-ok :
    (now id : ℕ) (st : OrderStatus) (f : Order → Order) (s t : Store) (r : Order)
    → update_status now id st f s ≡ (ok r, t)
    → Writes id (written now st f) s t r
unfolding update_status
update_status-ok now id st f s t r h = update_order-rows id (written now st f) s t r h

pub is_id→eq : (a : Option ℕ) (b : ℕ) → not (is_id a b) ≡ false → a ≡ some b
is_id→eq none b h = cc
is_id→eq (some a) b h = ap some (==→eq a b (ground arith))

pub live : (x : Option Order) (o : Order) → unless_deleted x ≡ some o → x ≡ some o
live none o h = cc
live (some x) o h = ground arith

pub payable :
    (st : OrderStatus)
    → not (is_pending st || is_accepted st) ≡ false
    → (st ≡ OrderStatus.pending_accept) ⊎ (st ≡ OrderStatus.accepted)
payable st h = ground arith
