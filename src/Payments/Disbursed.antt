-- ===== src/Payments/Disbursed.antt =====
-- What a notification of a disbursement does to the money that is locked for withdrawals
-- (kahade-backend/src/core/payment/webhook.controller.ts).
use rekberkan.Base.{ℕ, ◌≡◌, refl, Option, some, List, ◌∷◌, arith, get_or}
use rekberkan.Base.Int.{ℤ, ◌+ℤ◌, ◌-ℤ◌, 0ℤ, int_laws}
use rekberkan.Base.Table.{update_by, sum_rows-update_by}
use rekberkan.Store.{Store, Wallet, Withdrawal, ok}
use rekberkan.Escrow.Rows.{find_wallet_id, update_wallet_id}
use rekberkan.Withdrawal.Requests.{find_withdrawal}
use rekberkan.Withdrawal.Deciding.{update_withdrawal}
use rekberkan.Withdrawal.Reserve.{open_amount, locked_elsewhere}
use rekberkan.Wallet.Sums.{total_balance}
use rekberkan.Payments.Notices.{InvoiceStatus, withdrawal_word, unknown_error}
use rekberkan.Payments.Processing.{
  process_xendit_disbursement, process_disbursement_of, complete_disbursement, fail_disbursement,
  refund_failed, refund_tx, disbursed, undisbursed, freed,
}

completed_eq :
    (now id : ℕ) (rest : List ℕ) (code : Option ℕ) (w : Withdrawal) (s : Store)
    → find_withdrawal id s ≡ some w
    → process_xendit_disbursement now
        (some (withdrawal_word ∷ id ∷ rest))
        InvoiceStatus.completed
        code
        s
      ≡ (ok tt, record s { withdrawals = update_by Withdrawal.id id (disbursed now) s.withdrawals })
unfolding process_xendit_disbursement process_disbursement_of complete_disbursement
    update_withdrawal
completed_eq now id rest code w s e = ground arith

failed_eq :
    (now id : ℕ) (rest : List ℕ) (code : Option ℕ) (w : Withdrawal) (x : Wallet) (s : Store)
    → find_withdrawal id s ≡ some w
    → find_wallet_id w.wallet_id s ≡ some x
    → process_xendit_disbursement now
        (some (withdrawal_word ∷ id ∷ rest))
        InvoiceStatus.failed
        code
        s
      ≡ (
        ok tt,
        record s {
          withdrawals =
              update_by Withdrawal.id id (undisbursed (get_or code unknown_error)) s.withdrawals;
          wallets = update_by Wallet.id w.wallet_id (freed w.amount_minor) s.wallets;
        },
      )
unfolding process_xendit_disbursement process_disbursement_of fail_disbursement refund_failed
    refund_tx update_withdrawal update_wallet_id
failed_eq now id rest code w x s e f = ground arith

closed_open : (o' o x : ℤ) (l l' : ℤ) → o' +ℤ x ≡ o +ℤ 0ℤ → l' ≡ l → l' -ℤ o' ≡ (l -ℤ o) +ℤ x
closed_open o' o x l l' p q = grind int_laws

freed_open :
    (o' o x l l' y m : ℤ)
    → o' +ℤ x ≡ o +ℤ 0ℤ
    → l' +ℤ y ≡ l +ℤ (y -ℤ m)
    → l' -ℤ o' ≡ ((l -ℤ o) +ℤ x) -ℤ m
freed_open o' o x l l' y m p q = grind int_laws

same_balance : (t s x : ℤ) → t +ℤ x ≡ s +ℤ x → t ≡ s
same_balance t s x h = grind int_laws

-- A disbursement notification for a withdrawal that is there with its wallet. Once it is COMPLETED,
-- what is locked for other reasons than open withdrawals has grown by the amount of the withdrawal
-- if it was pending or approved, and no balance has changed: the money is neither paid nor freed.
-- Once it is FAILED, that has changed by the amount of the withdrawal if it was pending or approved,
-- less its amount: nothing for such a one, and for any other withdrawal the amount is freed out of
-- what is locked for other reasons.
pub disbursement_locks :
    (now id : ℕ) (rest : List ℕ) (code : Option ℕ) (w : Withdrawal) (x : Wallet) (s : Store)
    → find_withdrawal id s ≡ some w
    → find_wallet_id w.wallet_id s ≡ some x
    → let parts = some (withdrawal_word ∷ id ∷ rest) in
      let t = (process_xendit_disbursement now parts InvoiceStatus.completed code s).1 in
      let u = (process_xendit_disbursement now parts InvoiceStatus.failed code s).1 in
      (locked_elsewhere t ≡ locked_elsewhere s +ℤ open_amount w)
      × (total_balance t ≡ total_balance s)
      × (locked_elsewhere u ≡ (locked_elsewhere s +ℤ open_amount w) -ℤ w.amount_minor)
      × (total_balance u ≡ total_balance s)
disbursement_locks now id rest code w x s e f =
    let paid = completed_eq now id rest code w s e in
    let back = failed_eq now id rest code w x s e f in
    (
      rw paid (
          closed_open _ _ _ _ _
            (sum_rows-update_by open_amount Withdrawal.id id (disbursed now) w s.withdrawals e)
            refl),
      rw paid refl,
      rw back (
          freed_open _ _ _ _ _ x.locked_minor w.amount_minor
            (sum_rows-update_by open_amount Withdrawal.id id
              (undisbursed (get_or code unknown_error)) w s.withdrawals e)
            (sum_rows-update_by Wallet.locked_minor Wallet.id w.wallet_id (freed w.amount_minor) x
              s.wallets f)),
      rw back (
          same_balance _ _ x.balance_minor (
            sum_rows-update_by Wallet.balance_minor Wallet.id w.wallet_id (freed w.amount_minor) x
              s.wallets f)),
    )
