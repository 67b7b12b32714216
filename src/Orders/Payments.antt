-- ===== src/Orders/Payments.antt =====
-- The operations of `OrderService` from the payment on
-- (kahade-backend/src/core/order/order.service.ts): `payOrder`, `confirmDelivery`, `cancelOrder`,
-- `openDispute`. `now` is the date that a call reads. The escrow service commits its own
-- transaction; the update of the status after it is another.
use rekberkan.Base.{
  ℕ, ◌+◌, ◌*◌, ◌%◌, ◌/◌, suc, not, ◌||◌, Option, none, some, is_id, if◌then◌else◌, ◌==◌,
}
use rekberkan.Base.Int.{ℤ, pos, negsuc, ◌+ℤ◌, 0ℤ, ltb_ℤ, quot}
use rekberkan.Base.Table.{find_by}
use rekberkan.Store.{
  Store, EscrowHold, Order, OrderStatus, FeePayer, Action, Error, ◌>>=◌, ◌>>◌, gets, or_raise,
  raise_if,
}
use rekberkan.Wallet.Moves.{WalletBalance, get_balance}
use rekberkan.Escrow.Create.{CreateEscrowOptions, create_escrow}
use rekberkan.Escrow.Settle.{release_escrow}
use rekberkan.Orders.Rows.{
  day, find_by_id, update_status, buyer_id, seller_id, is_party, is_pending, is_accepted, is_paid,
  is_completed,
}

-- The part of the fee that the buyer pays
abbrev pub buyer_fee : Order → ℤ
buyer_fee o = elim o.fee_payer [
  | FeePayer.by_buyer ↦ o.platform_fee_minor
  | FeePayer.by_halves ↦ quot o.platform_fee_minor 2
  | FeePayer.by_seller ↦ 0ℤ
  | FeePayer.by_split ↦ 0ℤ
]

abbrev pub total_amount : Order → ℤ
total_amount o = o.amount_minor +ℤ buyer_fee o

-- `BigInt(balance.available)`, where `getBalance` has divided by 100: a number that is not whole
-- throws a RangeError.
abbrev pub whole_hundredths : ℤ → Option ℤ
whole_hundredths (pos n) = if n % 100 == 0 then some (pos (n / 100)) else none
whole_hundredths (negsuc n) = if suc n % 100 == 0 then some (quot (negsuc n) 100) else none

abbrev pub auto_release_date : ℕ → Order → ℕ
auto_release_date now o = now + o.holding_period_days * day

abbrev pub escrow_options : ℕ → Order → ℕ → CreateEscrowOptions
escrow_options user order key = record {
  order_id = order.id;
  buyer_user_id = user;
  seller_user_id = seller_id order;
  amount_minor = order.amount_minor;
  timeout_hours = some (order.holding_period_days * 24);
  idempotency_key = key;
}

-- `payOrder` once the balance is read
unfoldable pub charge : ℕ → ℕ → ℕ → Order → ℕ → WalletBalance → Action Order
unfolding create_escrow update_status
charge now user id order key balance = do
  available ← or_raise Error.internal (whole_hundredths balance.available_minor)
  raise_if (ltb_ℤ available (total_amount order)) Error.bad_request
  create_escrow now (escrow_options user order key)
  update_status now id OrderStatus.paid
      (λ o. record o { auto_release_at = some (auto_release_date now order) })

unfoldable pub pay_order : ℕ → ℕ → ℕ → Option ℕ → Action Order
unfolding get_balance charge
pay_order now user id idempotency_key = do
  key ← or_raise Error.bad_request idempotency_key
  order ← or_raise Error.not_found (← gets (find_by_id id))
  raise_if (not (is_id (buyer_id order) user)) Error.forbidden
  raise_if (not (is_pending order.status || is_accepted order.status)) Error.bad_request
  balance ← get_balance user
  charge now user id order key balance

-- The `escrowHold` that `findById` includes
abbrev pub escrow_of : Order → Store → Option EscrowHold
escrow_of o s = find_by EscrowHold.order_id o.id s.escrows

unfoldable pub confirm_delivery : ℕ → ℕ → ℕ → Option ℕ → Action Order
unfolding release_escrow update_status
confirm_delivery now user id idempotency_key = do
  key ← or_raise Error.bad_request idempotency_key
  order ← or_raise Error.not_found (← gets (find_by_id id))
  held ← gets (escrow_of order)
  raise_if (not (is_id (buyer_id order) user)) Error.forbidden
  raise_if (not (is_paid order.status)) Error.bad_request
  escrow ← or_raise Error.bad_request held
  release_escrow now escrow.id user order.platform_fee_minor key
  update_status now id OrderStatus.completed (λ o. o)

unfoldable pub cancel_order : ℕ → ℕ → ℕ → Action Order
unfolding update_status
cancel_order now user id = do
  order ← or_raise Error.not_found (← gets (find_by_id id))
  raise_if (not (is_party user order)) Error.forbidden
  raise_if (is_paid order.status || is_completed order.status) Error.bad_request
  update_status now id OrderStatus.cancelled (λ o. o)

unfoldable pub open_dispute : ℕ → ℕ → ℕ → Action Order
unfolding update_status
open_dispute now user id = do
  order ← or_raise Error.not_found (← gets (find_by_id id))
  raise_if (not (is_party user order)) Error.forbidden
  raise_if (not (is_paid order.status)) Error.bad_request
  update_status now id OrderStatus.disputed (λ o. o)
