-- ===== src/Transactions/Paying.antt =====
-- `pay`, `confirmDelivery` and `confirmReceipt` of `TransactionService`
-- (kahade-backend/src/core/transaction/transaction.service.ts). Each write is a transaction of its
-- own, so that what was written before a throw stays. `others` is what other transactions commit
-- during the rounds of the lock.
use rekberkan.Base.{ℕ, ◌+◌, ◌*◌, not, Option, none, some, [], ◌∷◌, is_id, get_or}
use rekberkan.Base.Int.{ℤ, ◌+ℤ◌, ◌-ℤ◌, quot}
use rekberkan.Base.Table.{update_by}
use rekberkan.Store.{
  Store, EscrowHold, EscrowHoldStatus, Order, OrderStatus, FeePayer, Action, Error, ◌>>=◌, ◌>>◌,
  pure, gets, or_raise, raise_if, modify,
}
use rekberkan.Wallet.Rows.{find_wallet}
use rekberkan.Wallet.Retry.{Others, lock_balance}
use rekberkan.Wallet.Moves.{transfer_locked_balance}
use rekberkan.Escrow.Rows.{find_order, update_order, settle, complete}
use rekberkan.Orders.Rows.{day, buyer_id, seller_id, is_accepted, is_paid}
use rekberkan.Transactions.Rows.{insert_hold, insert_proof, caught, wallet_of}

abbrev pub total_to_pay : Order → ℤ
total_to_pay o = elim o.fee_payer [
  | FeePayer.by_buyer ↦ o.amount_minor +ℤ o.platform_fee_minor
  | FeePayer.by_split ↦ o.amount_minor +ℤ quot o.platform_fee_minor 2
  | FeePayer.by_seller ↦ o.amount_minor
  | FeePayer.by_halves ↦ o.amount_minor
]

abbrev pub seller_amount : Order → ℤ
seller_amount o = elim o.fee_payer [
  | FeePayer.by_seller ↦ o.amount_minor -ℤ o.platform_fee_minor
  | FeePayer.by_split ↦ o.amount_minor -ℤ quot o.platform_fee_minor 2
  | FeePayer.by_buyer ↦ o.amount_minor
  | FeePayer.by_halves ↦ o.amount_minor
]

abbrev pub pay_row : ℕ → Order → Order
pay_row now o = record o { status = OrderStatus.paid; paid_at = some now }

unfoldable pub pay_transaction : Others → ℕ → ℕ → ℕ → Action Order
unfolding lock_balance insert_hold update_order
pay_transaction others now user id = do
  order ← or_raise Error.not_found (← gets (find_order id))
  raise_if (not (is_id (buyer_id order) user)) Error.forbidden
  raise_if (not (is_accepted order.status)) Error.bad_request
  caught Error.bad_request (lock_balance others user (total_to_pay order))
  wallet ← or_raise Error.bad_request (← gets (find_wallet user))
  seller_wallet ← gets (wallet_of (seller_id order))
  insert_hold id wallet.id seller_wallet (total_to_pay order)
  update_order id (pay_row now)

-- The text "Delivery proof submitted"
abbrev pub proof_submitted : ℕ
proof_submitted = 0

abbrev pub submit_proof : ℕ → Option ℕ → Option ℕ → Action (Unit {0})
submit_proof id none notes = pure tt
submit_proof id (some url) notes =
    insert_proof
      (record { order_id = id; file_urls = url ∷ []; notes = get_or notes proof_submitted })
    >> pure tt

-- `confirmDelivery`, where the notes are none when nothing is left of them by `trim`
unfoldable pub confirm_transaction_delivery : ℕ → ℕ → ℕ → Option ℕ → Option ℕ → Action Order
unfolding insert_proof update_order
confirm_transaction_delivery now user id url notes = do
  order ← or_raise Error.not_found (← gets (find_order id))
  raise_if (not (is_id (seller_id order) user)) Error.forbidden
  raise_if (not (is_paid order.status)) Error.bad_request
  submit_proof id url notes
  update_order id (λ o. record o { auto_release_at = some (now + 7 * day) })

-- `escrowHold.updateMany`, where the order is a unique column
abbrev pub release_hold : ℕ → ℕ → Store → Store
release_hold now id s = record s {
  escrows = update_by EscrowHold.order_id id (settle EscrowHoldStatus.released now) s.escrows;
}

-- What stands inside the `try` of `confirmReceipt`
unfoldable pub pay_out_transaction : ℕ → ℕ → ℕ → Order → Action Order
unfolding transfer_locked_balance update_order
pay_out_transaction now user seller order = do
  transfer_locked_balance user seller (seller_amount order)
  modify (release_hold now order.id)
  update_order order.id (complete now)

unfoldable pub confirm_receipt : ℕ → ℕ → ℕ → Action Order
unfolding pay_out_transaction
confirm_receipt now user id = do
  order ← or_raise Error.not_found (← gets (find_order id))
  raise_if (not (is_id (buyer_id order) user)) Error.forbidden
  raise_if (not (is_paid order.status)) Error.bad_request
  seller ← or_raise Error.bad_request (seller_id order)
  caught Error.bad_request (pay_out_transaction now user seller order)
