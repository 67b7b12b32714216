-- ===== src/Scenarios/Money.antt =====
-- Runs of the wallet and the ledger services.
use rekberkan.Base.{ℕ, ◌≡◌, refl, none, some, [], ◌∷◌, arith}
use rekberkan.Base.Int.{pos, negsuc, ◌+ℤ◌, ◌-ℤ◌, int_laws}
use rekberkan.Store.{Store, JournalType, LedgerAccount, LedgerAccountType, idr, ok}
use rekberkan.Wallet.Rows.{put_wallet, credit, debit}
use rekberkan.Wallet.Retry.{Others, alone, deduct_balance}
use rekberkan.Wallet.Moves.{transfer_locked_balance}
use rekberkan.Wallet.Bounds.{IsSolvent, put_wallet-IsSolvent}
use rekberkan.Wallet.Sums.{find-put_wallet}
use rekberkan.Wallet.Transfers.{MovesLocked, transfer_locked_balance-MovesLocked}
use rekberkan.Wallet.Interference.{
  IsFair, Debits, deduct_balance-IsSolvent, deduct_balance-ok, deduct_balance-alone,
}
use rekberkan.Ledger.Journal.{CreateJournalOptions, refers}
use rekberkan.Ledger.Records.{input}
use rekberkan.Ledger.Postings.{Posts, create_journal-Posts}
use rekberkan.Scenarios.{market, buyer_wallet}

-- Another transaction that pays the seller ten while the buyer's is under way
abbrev paying : Others
paying i s = put_wallet 2 (credit (pos 10)) s

solvent : IsSolvent market
solvent = (ground arith, (ground arith, tt))

paying-IsFair : IsFair 1 paying
paying-IsFair = record {
  keeps = λ i s h. put_wallet-IsSolvent 2 (credit (pos 10)) s h (λ w e k. grind int_laws);
  versioned = λ i s w w' e f v. ground (arith, find-put_wallet 1 2 (credit (pos 10)) s (λ _. refl));
}

abbrev debited_market : Store
debited_market = (deduct_balance paying 3 1 (pos 100) market).1

deduct_balance-ok_example :
    Debits paying 3 1 (pos 100) market debited_market (some (debit (pos 100) buyer_wallet))
unfolding deduct_balance ◌+ℤ◌ ◌-ℤ◌
deduct_balance-ok_example =
    deduct_balance-ok paying 3 1 (pos 100) market debited_market
      (some (debit (pos 100) buyer_wallet)) paying-IsFair refl

deduct_balance-IsSolvent_example : IsSolvent (deduct_balance paying 3 1 (pos 100) market).1
deduct_balance-IsSolvent_example =
    deduct_balance-IsSolvent paying 3 1 (pos 100) market paying-IsFair solvent

deduct_balance-alone_example :
    deduct_balance alone 3 1 (pos 400) market
    ≡ (ok (some (debit (pos 400) buyer_wallet)), put_wallet 1 (debit (pos 400)) market)
unfolding ◌-ℤ◌
deduct_balance-alone_example =
    deduct_balance-alone 2 1 (pos 400) buyer_wallet market refl (ground arith) (ground arith)
      (ground arith)

transfer_locked_balance-MovesLocked_example :
    MovesLocked (pos 480) market (transfer_locked_balance 1 3 (pos 480) market)
transfer_locked_balance-MovesLocked_example =
    transfer_locked_balance-MovesLocked 1 3 (pos 480) market

-- A transfer of fifty from account 1 to account 2
abbrev fifty : CreateJournalOptions
fifty = record {
  type = JournalType.transfer;
  amount_minor = pos 50;
  entries = input 1 (negsuc 49) ∷ input 2 (pos 50) ∷ [];
  idempotency_key = some 8;
  deposit_id = none;
  withdrawal_id = none;
  order_id = none;
  escrow_hold_id = none;
  dispute_id = none;
  referral_reward_id = none;
  voucher_usage_id = none;
  order_settlement_id = none;
}

-- The ledger accounts of the two wallets
abbrev account : ℕ → ℕ → LedgerAccount
account id wallet = record {
  id = id;
  wallet_id = some wallet;
  platform_key = none;
  type = LedgerAccountType.liability;
  currency = idr;
}

abbrev accounted_market : Store
accounted_market = record market { accounts = account 1 11 ∷ account 2 12 ∷ [] }

create_journal-Posts_example : Posts 100 fifty accounted_market
unfolding ◌+ℤ◌ refers
create_journal-Posts_example = create_journal-Posts 100 fifty accounted_market refl refl refl refl
