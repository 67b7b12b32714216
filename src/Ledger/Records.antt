-- ===== src/Ledger/Records.antt =====
-- The postings of `LedgerService` (kahade-backend/src/core/ledger/ledger.service.ts): which journal
-- each money movement writes. `links` are the identifiers that a journal carries.
use rekberkan.Base.{ℕ, none, some, List, [], ◌∷◌, ◌++◌, if◌then◌else◌}
use rekberkan.Base.Int.{ℤ, ◌+ℤ◌, ◌-ℤ◌, neg, 0ℤ, ltb_ℤ}
use rekberkan.Store.{LedgerJournal, JournalType, Action}
use rekberkan.Ledger.Journal.{LedgerEntryInput, CreateJournalOptions, create_journal}

abbrev pub input : ℕ → ℤ → LedgerEntryInput
input account amount = record { account_id = account; amount_minor = amount }

unfoldable pub deposit_options : ℕ → ℕ → ℤ → ℕ → ℕ → CreateJournalOptions
deposit_options user_account platform_account amount deposit key = record {
  type = JournalType.deposit;
  amount_minor = amount;
  entries = input user_account amount ∷ input platform_account (neg amount) ∷ [];
  idempotency_key = some key;
  deposit_id = some deposit;
  withdrawal_id = none;
  order_id = none;
  escrow_hold_id = none;
  dispute_id = none;
  referral_reward_id = none;
  voucher_usage_id = none;
  order_settlement_id = none;
}

-- `recordDeposit`
unfoldable pub record_deposit : ℕ → ℕ → ℕ → ℤ → ℕ → ℕ → Action LedgerJournal
unfolding deposit_options create_journal
record_deposit now user_account platform_account amount deposit key =
    create_journal now (deposit_options user_account platform_account amount deposit key)

unfoldable pub withdrawal_options : ℕ → ℕ → ℤ → ℕ → ℕ → CreateJournalOptions
withdrawal_options user_account platform_account amount withdrawal key = record {
  type = JournalType.withdrawal;
  amount_minor = amount;
  entries = input user_account (neg amount) ∷ input platform_account amount ∷ [];
  idempotency_key = some key;
  deposit_id = none;
  withdrawal_id = some withdrawal;
  order_id = none;
  escrow_hold_id = none;
  dispute_id = none;
  referral_reward_id = none;
  voucher_usage_id = none;
  order_settlement_id = none;
}

-- `recordWithdrawal`
unfoldable pub record_withdrawal : ℕ → ℕ → ℕ → ℤ → ℕ → ℕ → Action LedgerJournal
unfolding withdrawal_options create_journal
record_withdrawal now user_account platform_account amount withdrawal key =
    create_journal now (withdrawal_options user_account platform_account amount withdrawal key)

unfoldable pub escrow_hold_options : ℕ → ℕ → ℤ → ℕ → ℕ → ℕ → CreateJournalOptions
escrow_hold_options buyer_account escrow_account amount escrow order key = record {
  type = JournalType.escrow_lock;
  amount_minor = amount;
  entries = input buyer_account (neg amount) ∷ input escrow_account amount ∷ [];
  idempotency_key = some key;
  deposit_id = none;
  withdrawal_id = none;
  order_id = some order;
  escrow_hold_id = some escrow;
  dispute_id = none;
  referral_reward_id = none;
  voucher_usage_id = none;
  order_settlement_id = none;
}

-- `recordEscrowHold`
unfoldable pub record_escrow_hold : ℕ → ℕ → ℕ → ℤ → ℕ → ℕ → ℕ → Action LedgerJournal
unfolding escrow_hold_options create_journal
record_escrow_hold now buyer_account escrow_account amount escrow order key =
    create_journal now (escrow_hold_options buyer_account escrow_account amount escrow order key)

unfoldable pub escrow_release_options : ℕ → ℕ → ℕ → ℤ → ℤ → ℕ → ℕ → ℕ → CreateJournalOptions
escrow_release_options escrow_account seller_account fee_account amount fee escrow order key =
    record {
      type = JournalType.escrow_release;
      amount_minor = amount;
      entries =
          input escrow_account (neg amount)
          ∷ input seller_account (amount -ℤ fee)
          ∷ input fee_account fee
          ∷ [];
      idempotency_key = some key;
      deposit_id = none;
      withdrawal_id = none;
      order_id = some order;
      escrow_hold_id = some escrow;
      dispute_id = none;
      referral_reward_id = none;
      voucher_usage_id = none;
      order_settlement_id = none;
    }

-- `recordEscrowRelease`
unfoldable pub record_escrow_release : ℕ → ℕ → ℕ → ℕ → ℤ → ℤ → ℕ → ℕ → ℕ → Action LedgerJournal
unfolding escrow_release_options create_journal
record_escrow_release now escrow_account seller_account fee_account amount fee escrow order key =
    create_journal now
      (escrow_release_options escrow_account seller_account fee_account amount fee escrow order key)

unfoldable pub escrow_refund_options : ℕ → ℕ → ℤ → ℕ → ℕ → ℕ → CreateJournalOptions
escrow_refund_options escrow_account buyer_account amount escrow order key = record {
  type = JournalType.refund;
  amount_minor = amount;
  entries = input escrow_account (neg amount) ∷ input buyer_account amount ∷ [];
  idempotency_key = some key;
  deposit_id = none;
  withdrawal_id = none;
  order_id = some order;
  escrow_hold_id = some escrow;
  dispute_id = none;
  referral_reward_id = none;
  voucher_usage_id = none;
  order_settlement_id = none;
}

-- `recordEscrowRefund`
unfoldable pub record_escrow_refund : ℕ → ℕ → ℕ → ℤ → ℕ → ℕ → ℕ → Action LedgerJournal
unfolding escrow_refund_options create_journal
record_escrow_refund now escrow_account buyer_account amount escrow order key =
    create_journal now (escrow_refund_options escrow_account buyer_account amount escrow order key)

-- `if (amount > 0n) entries.push(...)`
abbrev pub push_if_positive : ℕ → ℤ → List LedgerEntryInput
push_if_positive account amount = if ltb_ℤ 0ℤ amount then input account amount ∷ [] else []

unfoldable pub dispute_options : ℕ → ℕ → ℕ → ℕ → ℤ → ℤ → ℤ → ℕ → ℕ → ℕ → CreateJournalOptions
dispute_options escrow_account buyer_account seller_account fee_account refund seller fee dispute
      order key =
    record {
      type = JournalType.adjustment;
      amount_minor = refund +ℤ seller +ℤ fee;
      entries =
          input escrow_account (neg (refund +ℤ seller +ℤ fee))
          ∷ (push_if_positive buyer_account refund
              ++ (push_if_positive seller_account seller ++ push_if_positive fee_account fee));
      idempotency_key = some key;
      deposit_id = none;
      withdrawal_id = none;
      order_id = some order;
      escrow_hold_id = none;
      dispute_id = some dispute;
      referral_reward_id = none;
      voucher_usage_id = none;
      order_settlement_id = none;
    }

-- `recordDisputeResolution`
unfoldable pub record_dispute_resolution :
    ℕ → ℕ → ℕ → ℕ → ℕ → ℤ → ℤ → ℤ → ℕ → ℕ → ℕ → Action LedgerJournal
unfolding dispute_options create_journal
record_dispute_resolution now escrow_account buyer_account seller_account fee_account refund seller
      fee dispute order key =
    create_journal now (
      dispute_options escrow_account buyer_account seller_account fee_account refund seller fee
        dispute order key)
