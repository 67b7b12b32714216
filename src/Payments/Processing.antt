-- ===== src/Payments/Processing.antt =====
-- What a notification of a payment provider does to the tables
-- (kahade-backend/src/core/payment/webhook.controller.ts). An external identifier is given as the parts
-- between its underscores, an amount as a whole number of hundredths; texts are numbers.
use rekberkan.Base.{ℕ, Bool, Option, none, some, List, if◌then◌else◌, ◌&&◌, get_or}
use rekberkan.Base.Int.{ℤ, ◌+ℤ◌, ◌-ℤ◌}
use rekberkan.Store.{
  Wallet, Order, OrderStatus, Withdrawal, WithdrawalStatus, Action, Error, ◌>>=◌, ◌>>◌, pure, raise,
  gets, in_transaction,
}
use rekberkan.Escrow.Rows.{find_order, update_order, update_wallet_id}
use rekberkan.Withdrawal.Requests.{find_withdrawal}
use rekberkan.Withdrawal.Deciding.{update_withdrawal}
use rekberkan.Payments.Notices.{
  topup_word, order_word, withdrawal_word, unknown_error, is_settled, is_lost, is_completed,
  is_failed, first_part, second_part, is_denied, is_trusted, is_captured, is_refused, is_word,
  amount_paid, InvoiceStatus, MidtransStatus, FraudStatus,
}

-- A row named by a value that may be `undefined`, which the database client refuses
abbrev pub named : {A : Type 0} → Option ℕ → (ℕ → Action A) → Action A
named none f = raise Error.internal
named (some id) f = f id

-- The `data` of the updates; none counts the version of the wallet up.
abbrev pub credited : ℤ → Wallet → Wallet
credited amount w = record w { balance_minor = w.balance_minor +ℤ amount }

abbrev pub freed : ℤ → Wallet → Wallet
freed amount w = record w { locked_minor = w.locked_minor -ℤ amount }

abbrev pub order_paid : ℕ → Order → Order
order_paid now o = record o { status = OrderStatus.paid; paid_at = some now }

abbrev pub order_cancelled : ℕ → Order → Order
order_cancelled now o = record o { status = OrderStatus.cancelled; cancelled_at = some now }

abbrev pub disbursed : ℕ → Withdrawal → Withdrawal
disbursed now w = record w { status = WithdrawalStatus.completed; completed_at = some now }

abbrev pub undisbursed : ℕ → Withdrawal → Withdrawal
undisbursed reason w = record w { status = WithdrawalStatus.failed; rejection_reason = some reason }

unfoldable pub credit_wallet : ℤ → ℕ → Action (Unit {0})
unfolding update_wallet_id
credit_wallet amount wallet = update_wallet_id wallet (credited amount) >> pure tt

unfoldable pub process_top_up_payment : Option ℕ → InvoiceStatus → ℤ → Action (Unit {0})
unfolding credit_wallet
process_top_up_payment wallet status amount =
    if is_settled status then in_transaction (named wallet (credit_wallet amount)) else pure tt

unfoldable pub settle_order : ℕ → ℕ → InvoiceStatus → Option Order → Action (Unit {0})
unfolding update_order
settle_order now id status none = pure tt
settle_order now id status (some o) =
    if is_settled status
    then update_order id (order_paid now) >> pure tt
    else if is_lost status
    then update_order id (order_cancelled now) >> pure tt
    else pure tt

unfoldable pub process_order : ℕ → InvoiceStatus → ℕ → Action (Unit {0})
unfolding settle_order
process_order now status id = gets (find_order id) >>= settle_order now id status

unfoldable pub process_order_payment : ℕ → Option ℕ → InvoiceStatus → Action (Unit {0})
unfolding process_order
process_order_payment now order status = named order (process_order now status)

unfoldable pub process_xendit_payment :
    ℕ → List ℕ → InvoiceStatus → ℤ → Option ℤ → Action (Unit {0})
unfolding process_top_up_payment process_order_payment
process_xendit_payment now parts status amount paid_amount =
    if is_word (first_part parts) topup_word
    then process_top_up_payment (second_part parts) status (amount_paid paid_amount amount)
    else if is_word (first_part parts) order_word
    then process_order_payment now (second_part parts) status
    else pure tt

unfoldable pub refund_tx : ℕ → ℕ → Withdrawal → Action (Unit {0})
unfolding update_withdrawal update_wallet_id
refund_tx id reason w = do
  update_withdrawal id (undisbursed reason)
  update_wallet_id w.wallet_id (freed w.amount_minor)
  pure tt

unfoldable pub refund_failed : ℕ → ℕ → Option Withdrawal → Action (Unit {0})
unfolding refund_tx
refund_failed id reason none = pure tt
refund_failed id reason (some w) = in_transaction (refund_tx id reason w)

unfoldable pub fail_disbursement : Option ℕ → ℕ → Action (Unit {0})
unfolding refund_failed
fail_disbursement code id =
    gets (find_withdrawal id) >>= refund_failed id (get_or code unknown_error)

unfoldable pub complete_disbursement : ℕ → ℕ → Action (Unit {0})
unfolding update_withdrawal
complete_disbursement now id = update_withdrawal id (disbursed now) >> pure tt

unfoldable pub process_disbursement_of : ℕ → Option ℕ → InvoiceStatus → Option ℕ → Action (Unit {0})
unfolding complete_disbursement fail_disbursement
process_disbursement_of now withdrawal status code =
    if is_completed status
    then named withdrawal (complete_disbursement now)
    else if is_failed status
    then named withdrawal (fail_disbursement code)
    else pure tt

-- A payload without an external identifier makes the call of `split` throw.
unfoldable pub process_xendit_disbursement :
    ℕ → Option (List ℕ) → InvoiceStatus → Option ℕ → Action (Unit {0})
unfolding process_disbursement_of
process_xendit_disbursement now none status code = raise Error.internal
process_xendit_disbursement now (some parts) status code =
    if is_word (first_part parts) withdrawal_word
    then process_disbursement_of now (second_part parts) status code
    else pure tt

unfoldable pub process_midtrans_order : ℕ → Option ℕ → Bool → Bool → Action (Unit {0})
unfolding process_order_payment
process_midtrans_order now order is_paid refused =
    if is_paid
    then process_order_payment now order InvoiceStatus.paid
    else if refused
    then process_order_payment now order InvoiceStatus.failed
    else pure tt

unfoldable pub process_midtrans_payment :
    ℕ → List ℕ → MidtransStatus → ℤ → Option FraudStatus → Action (Unit {0})
unfolding process_top_up_payment process_midtrans_order
process_midtrans_payment now parts status amount fraud =
    let is_paid = is_captured status && is_trusted fraud in
    if is_denied fraud
    then pure tt
    else if is_word (first_part parts) topup_word
    then (if is_paid
        then process_top_up_payment (second_part parts) InvoiceStatus.paid amount
        else pure tt)
    else if is_word (first_part parts) order_word
    then process_midtrans_order now (second_part parts) is_paid (is_refused status)
    else pure tt
