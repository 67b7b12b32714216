-- ===== src/Withdrawal/Requests.antt =====
-- `createWithdrawal` of kahade-backend/src/core/withdrawal/withdrawal.service.ts. `now` is the date that a
-- call reads; the lock of the balance runs in the transaction of the call.
use rekberkan.Base.{
  ℕ, ◌+◌, ◌*◌, Bool, not, Option, none, some, List, [], ◌∷◌, ◌++◌, if◌then◌else◌, ◌==◌, ◌&&◌, leb,
  is_some, is_id,
}
use rekberkan.Base.Int.{ℤ, ◌+ℤ◌, leb_ℤ, ltb_ℤ}
use rekberkan.Base.Table.{find_by, find_first}
use rekberkan.Store.{
  Store, Wallet, Withdrawal, WithdrawalStatus, BankAccount, User, FlagReason, Action, ok, err,
  Error, ◌>>=◌, ◌>>◌, raise_if, gets, or_raise, existing_or, in_transaction,
}
use rekberkan.Wallet.Rows.{find_wallet, available}
use rekberkan.Wallet.Retry.{alone, lock_balance}
use rekberkan.Withdrawal.Limits.{Limits, limits_of, validate_withdrawal_limits}
use rekberkan.Withdrawal.Velocity.{calculate_velocity_score, velocity_score_warning}

pub record CreateWithdrawalDto : Type 0 where
  pub user_id : ℕ
  pub bank_account_id : ℕ
  pub amount_minor : ℤ
  pub idempotency_key : ℕ

abbrev pub find_withdrawal : ℕ → Store → Option Withdrawal
find_withdrawal id s = find_by Withdrawal.id id s.withdrawals

-- The `where` of the bank account
abbrev pub is_usable : CreateWithdrawalDto → BankAccount → Bool
is_usable dto b =
    b.id == dto.bank_account_id
    && (b.user_id == dto.user_id && (b.is_active && not (is_some b.deleted_at)))

abbrev pub needs_two : Limits → ℤ → Bool
needs_two limits amount =
    leb_ℤ (limits.requires_approval_threshold +ℤ limits.requires_approval_threshold) amount

abbrev pub is_flagged : ℕ → Bool
is_flagged score = leb velocity_score_warning score

-- The row of `withdrawal.create`; both branches of the source's test for the status say PENDING.
abbrev pub new_withdrawal :
    ℕ → ℕ → CreateWithdrawalDto → Wallet → Limits → ℕ × Option (List FlagReason) → Withdrawal
new_withdrawal now id dto wallet limits velocity = record {
  id = id;
  wallet_id = wallet.id;
  user_id = dto.user_id;
  bank_account_id = dto.bank_account_id;
  amount_minor = dto.amount_minor;
  status =
      if is_flagged velocity.0
      then WithdrawalStatus.pending
      else if leb_ℤ limits.requires_approval_threshold dto.amount_minor
      then WithdrawalStatus.pending
      else WithdrawalStatus.pending;
  idempotency_key = some dto.idempotency_key;
  requires_multiple_approvals = needs_two limits dto.amount_minor;
  required_approvals = if needs_two limits dto.amount_minor then 2 else 1;
  velocity_score = velocity.0;
  is_flagged_by_system = is_flagged velocity.0;
  flag_reason = if is_flagged velocity.0 then velocity.1 else none;
  cooling_period_ends_at = some (now + limits.cooling_period_minutes * 60 * 1000);
  can_process_after = some (now + limits.cooling_period_minutes * 60 * 1000);
  approved_by = none;
  approved_at = none;
  admin_notes = none;
  rejection_reason = none;
  requested_at = now;
  completed_at = none;
  provider_disbursement_id = none;
}

-- `findUnique` by the idempotency key
abbrev pub find_by_key : ℕ → Store → Option Withdrawal
find_by_key key s = find_first (λ w. is_id w.idempotency_key key) s.withdrawals

-- `withdrawal.create`
unfoldable pub insert_withdrawal :
    ℕ → CreateWithdrawalDto → Wallet → Limits → ℕ × Option (List FlagReason) → Action Withdrawal
insert_withdrawal now dto wallet limits velocity s = elim (find_by_key dto.idempotency_key s) [
  | some _ ↦ (err Error.unique_violation, s)
  | none ↦
      let row = new_withdrawal now s.next_id dto wallet limits velocity in
      (ok row, record s { withdrawals = s.withdrawals ++ row ∷ []; next_id = s.next_id + 1 })
]

unfoldable pub create_withdrawal_tx :
    ℕ → CreateWithdrawalDto → Wallet → Limits → ℕ × Option (List FlagReason) → Action Withdrawal
unfolding lock_balance insert_withdrawal
create_withdrawal_tx now dto wallet limits velocity = do
  lock_balance alone dto.user_id dto.amount_minor
  insert_withdrawal now dto wallet limits velocity

-- Steps 2 to 8 of `createWithdrawal`
unfoldable pub request_withdrawal : (ℕ → ℕ) → (ℕ → ℕ) → ℕ → CreateWithdrawalDto → Action Withdrawal
unfolding validate_withdrawal_limits calculate_velocity_score create_withdrawal_tx
request_withdrawal start_of_day start_of_month now dto = do
  user ← or_raise Error.not_found (← gets (λ s. find_by User.id dto.user_id s.users))
  bank ← or_raise Error.bad_request (← gets (λ s. find_first (is_usable dto) s.bank_accounts))
  wallet ← or_raise Error.not_found (← gets (find_wallet dto.user_id))
  raise_if (ltb_ℤ (available wallet) dto.amount_minor)
      (Error.insufficient_balance (available wallet) dto.amount_minor)
  validate_withdrawal_limits start_of_day start_of_month now dto.user_id dto.amount_minor
      user.kyc_status
  velocity ← gets (calculate_velocity_score now dto.user_id)
  in_transaction (create_withdrawal_tx now dto wallet (limits_of user.kyc_status) velocity)

-- `createWithdrawal`
unfoldable pub create_withdrawal : (ℕ → ℕ) → (ℕ → ℕ) → ℕ → CreateWithdrawalDto → Action Withdrawal
unfolding request_withdrawal
create_withdrawal start_of_day start_of_month now dto = do
  existing ← gets (find_by_key dto.idempotency_key)
  existing_or existing (request_withdrawal start_of_day start_of_month now dto)
