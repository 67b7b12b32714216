-- ===== src/Scenarios/Payouts.antt =====
-- Runs of the withdrawal service.
use rekberkan.Base.{arith, ℕ, true, some, ◌≡◌, refl, none, some, [], ◌∷◌}
use rekberkan.Base.Int.{pos, ◌-ℤ◌, ◌+ℤ◌}
use rekberkan.Store.{Store, Wallet, BankAccount, KycStatus, Withdrawal, ok, err, Error}
use rekberkan.Withdrawal.Limits.{limits_of}
use rekberkan.Withdrawal.Requests.{CreateWithdrawalDto, create_withdrawal, new_withdrawal}
use rekberkan.Withdrawal.Deciding.{approve_withdrawal, reject_withdrawal, complete_withdrawal}
use rekberkan.Withdrawal.Created.{Accepted, create_withdrawal-ok}
use rekberkan.Withdrawal.Periods.{IsCapped, create_withdrawal-IsCapped}
use rekberkan.Withdrawal.Reserve.{locked_elsewhere, withdrawal_operations_reserve}
use rekberkan.Withdrawal.Vetted.{IsVetted, withdrawal_operations_vet}
use rekberkan.Withdrawal.Cancel.{cancel_pending_withdrawal}
use rekberkan.Wallet.Sums.{total_locked}
use rekberkan.Withdrawal.Direct.{WithdrawDto, direct_withdrawal, withdraw, withdraw_in, constrained}
use rekberkan.Withdrawal.Race.{
  Admits, asked, other_call, guarded_call, withdraw_alone, withdraw_race,
}
use rekberkan.Wallet.Rows.{find_wallet, lock}
use rekberkan.Wallet.Bounds.{IsSound, IsSolvent}
use rekberkan.Scenarios.{market, buyer_wallet}

abbrev start : ℕ → ℕ
start now = 0

abbrev order_400 : CreateWithdrawalDto
order_400 = record {
  user_id = 1;
  bank_account_id = 31;
  amount_minor = pos 400;
  idempotency_key = 77;
}

abbrev requested_market : Store
requested_market = (create_withdrawal start start 100 order_400 market).1

abbrev requested_row : Withdrawal
requested_row =
    new_withdrawal 100 100 order_400 buyer_wallet (limits_of (some KycStatus.verified)) (0, none)

create_withdrawal-ok_example :
    Accepted start start 100 order_400 market requested_row requested_market
unfolding create_withdrawal ◌-ℤ◌
create_withdrawal-ok_example =
    create_withdrawal-ok start start 100 order_400 market requested_market requested_row refl refl

create_withdrawal-IsCapped_example : IsCapped 0 0 1 market requested_market
unfolding create_withdrawal ◌-ℤ◌
create_withdrawal-IsCapped_example =
    create_withdrawal-IsCapped start start 100 order_400 market requested_market requested_row refl
      refl

withdrawal_operations_reserve_example :
    let m = locked_elsewhere requested_market in
    (locked_elsewhere (create_withdrawal start start 100 order_400 requested_market).1 ≡ m)
    × (locked_elsewhere (approve_withdrawal 100 100 9 none requested_market).1 ≡ m)
    × (locked_elsewhere (reject_withdrawal 100 3 requested_market).1 ≡ m)
    × (locked_elsewhere (complete_withdrawal 100 100 none requested_market).1 ≡ m)
withdrawal_operations_reserve_example =
    withdrawal_operations_reserve start start 100 100 9 3 none order_400 requested_market

withdrawal_operations_vet_example :
    IsVetted (create_withdrawal start start 100 order_400 requested_market).1
    × IsVetted (approve_withdrawal 100 100 9 none requested_market).1
    × IsVetted (reject_withdrawal 100 3 requested_market).1
    × IsVetted (complete_withdrawal 100 100 none requested_market).1
unfolding create_withdrawal ◌-ℤ◌
withdrawal_operations_vet_example =
    withdrawal_operations_vet start start 100 100 9 3 none order_400 requested_market (refl, tt)

-- Ten large withdrawals of the user's
abbrev large : Withdrawal
large = record requested_row { amount_minor = pos 600000000; requested_at = 100 }

abbrev busy_market : Store
busy_market = record market {
  withdrawals = large ∷ large ∷ large ∷ large ∷ large ∷ large ∷ large ∷ large ∷ large ∷ large ∷ [];
}

-- The buyer takes the withdrawal back: the four hundred are unlocked again.
cancelled_locked : total_locked (cancel_pending_withdrawal 1 100 3 requested_market).1 ≡ pos 500
unfolding cancel_pending_withdrawal create_withdrawal ◌-ℤ◌ ◌+ℤ◌
cancelled_locked = refl

-- A rich buyer, who asks twice for sixty thousand of a hundred thousand
abbrev rich_wallet : Wallet
rich_wallet = record buyer_wallet { balance_minor = pos 10_000_000; locked_minor = pos 0 }

abbrev rich_market : Store
rich_market = record market { wallets = rich_wallet ∷ [] }

abbrev saved : BankAccount
saved = record {
  id = 31;
  user_id = 1;
  bank_name = 8;
  account_number_last4 = 1234;
  is_active = true;
  deleted_at = none;
}

abbrev six_million : WithdrawDto
six_million = record { amount_minor = pos 6_000_000; bank_account_id = some 31; details = none }

rich-Admits : Admits 1 six_million rich_wallet saved rich_market
unfolding ◌-ℤ◌
rich-Admits = record {
  enough = omega arith;
  wallet = refl;
  there = omega arith;
  account = 31;
  given = refl;
  bank = refl;
}

withdraw_alone_example :
    let (r, t) = withdraw (λ v. v) 5 1 six_million rich_market in
    (r ≡ ok (direct_withdrawal 5 100 11 1 31 (pos 6_000_000)))
    × IsSolvent t
    × (locked_elsewhere t ≡ locked_elsewhere rich_market)
withdraw_alone_example =
    withdraw_alone 5 1 six_million rich_wallet saved rich_market rich-Admits
      ((omega arith, omega arith), tt)

withdraw_race_example :
    let (r, t) = withdraw (other_call 5 1 six_million) 4 1 six_million rich_market in
    let x = lock (pos 6_000_000) (lock (pos 6_000_000) rich_wallet) in
    ((withdraw (λ u. u) 5 1 six_million rich_market).0
      ≡ ok (direct_withdrawal 5 100 11 1 31 (pos 6_000_000)))
    × (r ≡ ok (direct_withdrawal 4 101 11 1 31 (pos 6_000_000)))
    × (find_wallet 1 t ≡ some x)
    × ¬ IsSound x
    × (withdraw_in constrained (λ u. u) 5 1 six_million rich_market ≡ (
      ok (direct_withdrawal 5 100 11 1 31 (pos 6_000_000)),
      asked 5 11 1 31 (pos 6_000_000) rich_market,
    ))
    × (withdraw_in constrained (guarded_call 5 1 six_million) 4 1 six_million rich_market
        ≡ (err Error.check_violation, asked 5 11 1 31 (pos 6_000_000) rich_market))
unfolding ◌-ℤ◌ ◌+ℤ◌
withdraw_race_example =
    withdraw_race 4 5 1 six_million six_million rich_wallet saved saved rich_market rich-Admits
      rich-Admits ((omega arith, omega arith), tt) (omega arith)
