-- ===== src/Withdrawal/Direct.antt =====
-- `withdraw` of kahade-backend/src/core/wallet/wallet.service.ts, which asks for a withdrawal without
-- the limits of the withdrawal service. An amount is a whole number of hundredths, and `meanwhile` is
-- what other transactions commit between the check of the balance and the transaction of the call.
use rekberkan.Base.{
  List, if◌then◌else◌, ℕ, ◌+◌, Bool, true, false, not, Option, none, some, [], ◌∷◌, ◌++◌, ◌==◌,
  ◌&&◌, is_some,
}
use rekberkan.Base.Int.{ℤ, pos, ltb_ℤ, leb_ℤ}
use rekberkan.Base.Table.{find_first}
use rekberkan.Store.{
  Result, Wallet, err, Store, Withdrawal, WithdrawalStatus, BankAccount, Action, ok, Error, ◌>>=◌,
  ◌>>◌, raise, gets, or_raise, raise_if, modify, in_transaction, existing_or,
}
use rekberkan.Wallet.Rows.{find_wallet, update_wallet, available, lock}

-- `bankCode`, `accountNumber` and `accountName`, where all are given; of the number the last four
-- digits are kept, and of the code the name of the bank.
pub record BankDetails : Type 0 where
  pub bank_name : ℕ
  pub account_number_last4 : ℕ

pub record WithdrawDto : Type 0 where
  pub amount_minor : ℤ
  pub bank_account_id : Option ℕ
  pub details : Option BankDetails

abbrev pub is_usable_account : ℕ → ℕ → BankAccount → Bool
is_usable_account user id b =
    b.id == id && (b.user_id == user && (b.is_active && not (is_some b.deleted_at)))

abbrev pub is_same_account : ℕ → BankDetails → BankAccount → Bool
is_same_account user d b =
    b.user_id == user
    && (b.bank_name == d.bank_name
        && (b.account_number_last4 == d.account_number_last4 && not (is_some b.deleted_at)))

-- `bankAccount.create`; the encrypted columns are left out, and their key is taken to be configured.
unfoldable pub insert_bank_account : ℕ → BankDetails → Action BankAccount
insert_bank_account user d s =
    let b : BankAccount = record {
      id = s.next_id;
      user_id = user;
      bank_name = d.bank_name;
      account_number_last4 = d.account_number_last4;
      is_active = true;
      deleted_at = none;
    } in
    (ok b, record s { bank_accounts = s.bank_accounts ++ b ∷ []; next_id = s.next_id + 1 })

-- An account that is named or described
unfoldable pub account_for : ℕ → Option ℕ → Option BankDetails → Action BankAccount
unfolding insert_bank_account
account_for user (some id) d =
    gets (λ s. find_first (is_usable_account user id) s.bank_accounts)
    >>= or_raise Error.bad_request
account_for user none none = raise Error.bad_request
account_for user none (some d) = do
  existing ← gets (λ s. find_first (is_same_account user d) s.bank_accounts)
  existing_or existing (insert_bank_account user d)

-- The row of `withdrawal.create`; the velocity score, which it leaves out, is held as 0.
abbrev pub direct_withdrawal : ℕ → ℕ → ℕ → ℕ → ℕ → ℤ → Withdrawal
direct_withdrawal now id wallet user bank amount = record {
  id = id;
  wallet_id = wallet;
  user_id = user;
  bank_account_id = bank;
  amount_minor = amount;
  status = WithdrawalStatus.pending;
  idempotency_key = none;
  requires_multiple_approvals = false;
  required_approvals = 1;
  velocity_score = 0;
  is_flagged_by_system = false;
  flag_reason = none;
  cooling_period_ends_at = none;
  can_process_after = none;
  approved_by = none;
  approved_at = none;
  admin_notes = none;
  rejection_reason = none;
  requested_at = now;
  completed_at = none;
  provider_disbursement_id = none;
}

unfoldable pub insert_direct : ℕ → ℕ → ℕ → ℕ → ℤ → Action Withdrawal
insert_direct now wallet user bank amount s =
    let w = direct_withdrawal now s.next_id wallet user bank amount in
    (ok w, record s { withdrawals = s.withdrawals ++ w ∷ []; next_id = s.next_id + 1 })

unfoldable pub withdraw_tx : ℕ → ℕ → ℕ → ℕ → ℤ → Action Withdrawal
unfolding update_wallet insert_direct
withdraw_tx now wallet user bank amount = do
  update_wallet user (lock amount)
  insert_direct now wallet user bank amount

-- `check_wallet_locked_not_exceed_balance` of kahade-backend/prisma/migration-constraints-enhanced.sql
unfoldable pub all_covered : List Wallet → Bool
all_covered [] = true
all_covered (w ∷ ws) = leb_ℤ w.locked_minor w.balance_minor && all_covered ws

-- A transaction on a database in which that constraint is in force: what breaks it ends the
-- transaction.
abbrev pub refused : {A : Type 0} → Store → Result A × Store → Result A × Store
refused s (ok a, t) = if all_covered t.wallets then (ok a, t) else (err Error.check_violation, s)
refused s (err e, t) = (err e, t)

abbrev pub constrained : {A : Type 0} → Action A → Action A
constrained m s = refused s (in_transaction m s)

-- `withdraw`, where `tx` runs its transaction
unfoldable pub withdraw_in :
    (Action Withdrawal → Action Withdrawal)
    → (Store → Store)
    → ℕ
    → ℕ
    → WithdrawDto
    → Action Withdrawal
unfolding account_for withdraw_tx
withdraw_in tx meanwhile now user dto = do
  raise_if (ltb_ℤ dto.amount_minor (pos 5_000_000)) Error.bad_request
  wallet ← or_raise Error.wallet_not_found (← gets (find_wallet user))
  raise_if (ltb_ℤ (available wallet) dto.amount_minor)
      (Error.insufficient_balance (available wallet) dto.amount_minor)
  bank ← account_for user dto.bank_account_id dto.details
  modify meanwhile
  tx (withdraw_tx now wallet.id user bank.id dto.amount_minor)

-- `withdraw`, on the tables as the schema declares them
unfoldable pub withdraw : (Store → Store) → ℕ → ℕ → WithdrawDto → Action Withdrawal
unfolding withdraw_in
withdraw meanwhile now user dto = withdraw_in in_transaction meanwhile now user dto
