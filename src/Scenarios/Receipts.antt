-- ===== src/Scenarios/Receipts.antt =====
-- Runs of the transaction service on an accepted order.
use rekberkan.Base.{some, ◌≡◌, refl, none, [], ◌∷◌, arith}
use rekberkan.Base.Int.{pos, ◌<ℤ◌, ◌+ℤ◌, ◌-ℤ◌}
use rekberkan.Store.{EscrowHold, Store, Wallet, Order, OrderStatus, Error, ok, err, ◌>>◌}
use rekberkan.Wallet.Retry.{alone}
use rekberkan.Wallet.Sums.{total_balance, total_locked}
use rekberkan.Wallet.Rows.{spend_locked}
use rekberkan.Escrow.Rows.{find_escrow, complete}
use rekberkan.Transactions.Opening.{accept_by_invite}
use rekberkan.Transactions.Paying.{pay_row, pay_transaction, confirm_receipt}
use rekberkan.Transactions.Closing.{update_transaction_status}
use rekberkan.Transactions.Paid.{Paid, pay_transaction-ok}
use rekberkan.Transactions.Received.{pay_transaction-then-confirm_receipt}
use rekberkan.Transactions.Marked.{mark, PaysOut, update_status-then-confirm_receipt}
use rekberkan.Transactions.Again.{accept_by_invite-then-pay_transaction}
use rekberkan.Scenarios.{buyer_wallet, seller_wallet, held, paid_order, market}

-- The buyer has five hundred locked for something else.
abbrev saver : Wallet
saver = record buyer_wallet { balance_minor = pos 2000; locked_minor = pos 500 }

abbrev deal : Order
deal = record paid_order { status = OrderStatus.accepted; paid_at = none; auto_release_at = none }

abbrev bazaar : Store
bazaar = record market { wallets = saver ∷ seller_wallet ∷ []; escrows = []; orders = deal ∷ [] }

abbrev paid_bazaar : Store
paid_bazaar = (pay_transaction alone 5 1 7 bazaar).1

abbrev closed_bazaar : Store
closed_bazaar = (confirm_receipt 9 1 7 paid_bazaar).1

pay_transaction-ok_example : Paid 5 1 7 bazaar paid_bazaar (pay_row 5 deal)
unfolding pay_transaction ◌+ℤ◌ ◌-ℤ◌
pay_transaction-ok_example = pay_transaction-ok 5 1 7 bazaar paid_bazaar (pay_row 5 deal) refl

pay_transaction-then-confirm_receipt_example :
    (total_balance closed_bazaar ≡ total_balance bazaar)
    × (total_locked closed_bazaar ≡ total_locked bazaar +ℤ pos 20)
unfolding pay_transaction confirm_receipt ◌+ℤ◌ ◌-ℤ◌
pay_transaction-then-confirm_receipt_example =
    pay_transaction-then-confirm_receipt 5 9 1 7 deal bazaar paid_bazaar closed_bazaar
      (pay_row 5 deal) (complete 9 (pay_row 5 deal)) refl refl refl

-- What is locked is held for another order.
abbrev promised : EscrowHold
promised = record held { order_id = 8 }

abbrev promised_bazaar : Store
promised_bazaar = record bazaar { escrows = promised ∷ [] }

update_status-then-confirm_receipt_example :
    (t : Store) × ((update_transaction_status 1 7 OrderStatus.paid >> confirm_receipt 9 1 7)
        promised_bazaar
      ≡ (ok (complete 9 (mark OrderStatus.paid deal)), t))
    × PaysOut 1 2 3 (pos 500) saver seller_wallet promised_bazaar t
    × (t.escrows ≡ promised ∷ [])
    × (find_escrow 5 t ≡ some promised)
    × ((spend_locked (pos 500) saver).locked_minor <ℤ pos 500)
update_status-then-confirm_receipt_example =
    update_status-then-confirm_receipt 9 1 7 2 3 5 deal saver seller_wallet promised promised_bazaar
      refl refl refl (omega arith) (omega arith) (omega arith) refl refl refl refl refl refl
      (omega arith) (omega arith)

-- The seller accepts the paid order once more.
abbrev held_bazaar : Store
held_bazaar = record bazaar { escrows = held ∷ []; orders = paid_order ∷ [] }

accept_by_invite-then-pay_transaction_example :
    (t : Store) × ((accept_by_invite 6 2 70 >> pay_transaction alone 8 1 7) held_bazaar
      ≡ (err Error.unique_violation, t))
    × (total_balance t ≡ total_balance held_bazaar)
    × (total_locked t ≡ total_locked held_bazaar +ℤ pos 520)
unfolding ◌+ℤ◌ ◌-ℤ◌
accept_by_invite-then-pay_transaction_example =
    accept_by_invite-then-pay_transaction 6 8 2 1 70 paid_order held saver held_bazaar refl refl
      (omega arith) refl refl refl refl (omega arith) (omega arith)
