-- ===== src/Withdrawal/Deciding.antt =====
-- `approveWithdrawal`, `rejectWithdrawal` and `completeWithdrawal`
-- (kahade-backend/src/core/withdrawal/withdrawal.service.ts).
use rekberkan.Base.{
  ℕ, ◌+◌, Bool, true, false, not, Option, none, some, [], ◌∷◌, ◌++◌, if◌then◌else◌, ◌==◌, ◌&&◌, ltb,
  length,
}
use rekberkan.Base.Int.{ℤ, ◌-ℤ◌}
use rekberkan.Base.Table.{find_first, filter_rows, update_by}
use rekberkan.Store.{
  Store, Wallet, Withdrawal, WithdrawalStatus, Action, ok, err, Error, ◌>>=◌, ◌>>◌, raise_if, gets,
  or_raise, in_transaction,
}
use rekberkan.Wallet.Rows.{update_wallet}
use rekberkan.Wallet.Moves.{unlock_balance}
use rekberkan.Withdrawal.Requests.{find_withdrawal}

-- `withdrawal.update`
unfoldable pub update_withdrawal : ℕ → (Withdrawal → Withdrawal) → Action Withdrawal
update_withdrawal id f s = elim (find_withdrawal id s) [
  | none ↦ (err Error.record_not_found, s)
  | some w ↦ (ok (f w), record s { withdrawals = update_by Withdrawal.id id f s.withdrawals })
]

abbrev pub is_pending : WithdrawalStatus → Bool
is_pending WithdrawalStatus.pending = true
is_pending _ = false

abbrev pub is_approved : WithdrawalStatus → Bool
is_approved WithdrawalStatus.approved = true
is_approved _ = false

abbrev pub approvals_of : ℕ → Store → ℕ
approvals_of id s = length (filter_rows (λ a. a.withdrawal_id == id) s.approvals)

-- `withdrawalApproval.create`; the pair of its columns is unique.
unfoldable pub insert_approval : ℕ → ℕ → Action (Unit {0})
insert_approval id approver s =
    elim (find_first (λ a. a.withdrawal_id == id && a.approved_by == approver) s.approvals) [
      | some _ ↦ (err Error.unique_violation, s)
      | none ↦ (
        ok tt,
        record s {
          approvals = s.approvals ++ record { withdrawal_id = id; approved_by = approver } ∷ [];
        },
      )
    ]

-- The approved row, or the pending one where more approvals are needed
abbrev pub approve : ℕ → ℕ → Option ℕ → Bool → Withdrawal → Withdrawal
approve now approver notes more w = record w {
  status = if more then WithdrawalStatus.pending else WithdrawalStatus.approved;
  approved_by = if more then w.approved_by else some approver;
  approved_at = if more then w.approved_at else some now;
  admin_notes = elim notes [ none ↦ w.admin_notes | some n ↦ some n ];
}

abbrev pub needs_more_approvals : Withdrawal → ℕ → Bool
needs_more_approvals w current =
    w.requires_multiple_approvals && ltb (current + 1) w.required_approvals

unfoldable pub approve_tx : ℕ → ℕ → ℕ → Option ℕ → Bool → Action Withdrawal
unfolding insert_approval update_withdrawal
approve_tx now id approver notes more = do
  insert_approval id approver
  update_withdrawal id (approve now approver notes more)

-- `approveWithdrawal`
unfoldable pub approve_withdrawal : ℕ → ℕ → ℕ → Option ℕ → Action Withdrawal
unfolding approve_tx
approve_withdrawal now id approver notes = do
  w ← or_raise Error.not_found (← gets (find_withdrawal id))
  raise_if (not (is_pending w.status)) (Error.bad_status w.status)
  current ← gets (approvals_of id)
  in_transaction (approve_tx now id approver notes (needs_more_approvals w current))

abbrev pub reject : ℕ → Withdrawal → Withdrawal
reject reason w = record w { status = WithdrawalStatus.rejected; rejection_reason = some reason }

unfoldable pub reject_tx : ℕ → ℕ → Withdrawal → Action Withdrawal
unfolding unlock_balance update_withdrawal
reject_tx id reason w = do
  unlock_balance w.user_id w.amount_minor
  update_withdrawal id (reject reason)

-- `rejectWithdrawal`
unfoldable pub reject_withdrawal : ℕ → ℕ → Action Withdrawal
unfolding reject_tx
reject_withdrawal id reason = do
  w ← or_raise Error.not_found (← gets (find_withdrawal id))
  raise_if (not (is_pending w.status)) (Error.bad_status w.status)
  in_transaction (reject_tx id reason w)

-- The decrement of both columns, with no condition and no new version
abbrev pub pay_out : ℤ → Wallet → Wallet
pay_out amount w = record w {
  balance_minor = w.balance_minor -ℤ amount;
  locked_minor = w.locked_minor -ℤ amount;
}

abbrev pub finish : ℕ → Option ℕ → Withdrawal → Withdrawal
finish now reference w = record w {
  status = WithdrawalStatus.completed;
  completed_at = some now;
  provider_disbursement_id = elim reference [ none ↦ w.provider_disbursement_id | some r ↦ some r ];
}

unfoldable pub complete_tx : ℕ → ℕ → Option ℕ → Withdrawal → Action Withdrawal
unfolding update_wallet update_withdrawal
complete_tx now id reference w = do
  update_wallet w.user_id (pay_out w.amount_minor)
  update_withdrawal id (finish now reference)

-- `completeWithdrawal`
unfoldable pub complete_withdrawal : ℕ → ℕ → Option ℕ → Action Withdrawal
unfolding complete_tx
complete_withdrawal now id reference = do
  w ← or_raise Error.not_found (← gets (find_withdrawal id))
  raise_if (not (is_approved w.status)) (Error.bad_status w.status)
  in_transaction (complete_tx now id reference w)
