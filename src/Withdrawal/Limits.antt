-- ===== src/Withdrawal/Limits.antt =====
-- The limits of `WithdrawalService` (kahade-backend/src/core/withdrawal/withdrawal.service.ts):
-- `WITHDRAWAL_LIMITS`, `getKYCLevel`, `validateWithdrawalLimits` and `getWithdrawalLimits`. The
-- starts of a day and of a month, which the source takes from the local calendar, are arguments.
use rekberkan.Base.{
  ℕ, ◌+◌, ◌-◌, ◌*◌, ◌/◌, Bool, true, false, Option, none, some, List, [], ◌∷◌, if◌then◌else◌, ◌==◌,
  ◌&&◌, leb, ltb, length,
}
use rekberkan.Base.Int.{ℤ, pos, ◌-ℤ◌, ltb_ℤ}
use rekberkan.Base.Table.{find_by, filter_rows, sum_rows}
use rekberkan.Store.{
  Store, Withdrawal, WithdrawalStatus, KycStatus, User, Action, Error, ◌>>=◌, ◌>>◌, pure, raise,
  raise_if, gets, or_raise,
}

pub data KycLevel : Type 0 where
  basic_level verified_level premium_level no_level : KycLevel

pub record Limits : Type 0 where
  pub daily_limit : ℤ
  pub monthly_limit : ℤ
  pub max_daily_count : ℕ
  pub cooling_period_minutes : ℕ
  pub requires_approval_threshold : ℤ

-- `WITHDRAWAL_LIMITS`
unfoldable pub withdrawal_limits : KycLevel → Limits
withdrawal_limits KycLevel.basic_level = record {
  daily_limit = pos (10000000 * 100);
  monthly_limit = pos (50000000 * 100);
  max_daily_count = 3;
  cooling_period_minutes = 30;
  requires_approval_threshold = pos (5000000 * 100);
}
withdrawal_limits KycLevel.verified_level = record {
  daily_limit = pos (100000000 * 100);
  monthly_limit = pos (500000000 * 100);
  max_daily_count = 5;
  cooling_period_minutes = 15;
  requires_approval_threshold = pos (25000000 * 100);
}
withdrawal_limits KycLevel.premium_level = record {
  daily_limit = pos (500000000 * 100);
  monthly_limit = pos (2000000000 * 100);
  max_daily_count = 10;
  cooling_period_minutes = 5;
  requires_approval_threshold = pos (100000000 * 100);
}
withdrawal_limits KycLevel.no_level = record {
  daily_limit = pos (1000000 * 100);
  monthly_limit = pos (5000000 * 100);
  max_daily_count = 1;
  cooling_period_minutes = 60;
  requires_approval_threshold = pos (500000 * 100);
}

-- `getKYCLevel`
unfoldable pub get_kyc_level : Option KycStatus → KycLevel
get_kyc_level (some KycStatus.pending) = KycLevel.basic_level
get_kyc_level (some KycStatus.verified) = KycLevel.verified_level
get_kyc_level _ = KycLevel.no_level

abbrev pub limits_of : Option KycStatus → Limits
limits_of kyc = withdrawal_limits (get_kyc_level kyc)

-- `in: [PENDING, APPROVED, COMPLETED]`
abbrev pub counts : WithdrawalStatus → Bool
counts WithdrawalStatus.pending = true
counts WithdrawalStatus.approved = true
counts WithdrawalStatus.completed = true
counts _ = false

-- The `where` of the two aggregates over a period
abbrev pub is_counted : ℕ → ℕ → Withdrawal → Bool
is_counted user start w = w.user_id == user && (leb start w.requested_at && counts w.status)

abbrev pub used_since : ℕ → ℕ → Store → ℤ
used_since user start s =
    sum_rows Withdrawal.amount_minor (filter_rows (is_counted user start) s.withdrawals)

abbrev pub count_since : ℕ → ℕ → Store → ℕ
count_since user start s = length (filter_rows (is_counted user start) s.withdrawals)

abbrev pub later : ℕ → Option ℕ → Option ℕ
later d none = some d
later d (some x) = if leb x d then some d else some x

-- `findFirst` by descending `requestedAt`: the date of the last withdrawal
unfoldable pub last_requested : ℕ → List Withdrawal → Option ℕ
last_requested user [] = none
last_requested user (w ∷ ws) =
    let rest = last_requested user ws in
    if w.user_id == user then later w.requested_at rest else rest

-- The wait of `WithdrawalCoolingPeriodError`, after `Math.floor` of the minutes since the last
-- withdrawal, which are below zero for one that is dated ahead of the clock; none if it is over
unfoldable pub cooling_wait : ℕ → ℕ → ℕ → Option ℕ
cooling_wait minutes now last =
    if leb last now
    then if ltb ((now - last) / 60000) minutes then some (minutes - (now - last) / 60000) else none
    else some (minutes + (last - now + 59999) / 60000)

abbrev pub check_cooling : ℕ → ℕ → Option ℕ → Action (Unit {0})
check_cooling minutes now none = pure tt
check_cooling minutes now (some last) = elim (cooling_wait minutes now last) [
  | none ↦ pure tt
  | some wait ↦ raise (Error.cooling_period wait)
]

-- `validateWithdrawalLimits`; the three limits are told apart by the numbers 0, 1 and 2.
unfoldable pub validate_withdrawal_limits :
    (ℕ → ℕ) → (ℕ → ℕ) → ℕ → ℕ → ℤ → Option KycStatus → Action (Unit {0})
unfolding get_kyc_level withdrawal_limits last_requested cooling_wait
validate_withdrawal_limits start_of_day start_of_month now user amount kyc = do
  daily_used ← gets (used_since user (start_of_day now))
  daily_count ← gets (count_since user (start_of_day now))
  monthly_used ← gets (used_since user (start_of_month now))
  raise_if (leb (limits_of kyc).max_daily_count daily_count) (Error.limit_exceeded 0)
  raise_if (ltb_ℤ ((limits_of kyc).daily_limit -ℤ daily_used) amount) (Error.limit_exceeded 1)
  raise_if (ltb_ℤ ((limits_of kyc).monthly_limit -ℤ monthly_used) amount) (Error.limit_exceeded 2)
  last ← gets (λ s. last_requested user s.withdrawals)
  check_cooling (limits_of kyc).cooling_period_minutes now last

pub record WithdrawalLimits : Type 0 where
  pub daily_limit : ℤ
  pub daily_used : ℤ
  pub daily_remaining : ℤ
  pub daily_count : ℕ
  pub max_daily_count : ℕ
  pub monthly_limit : ℤ
  pub monthly_used : ℤ
  pub monthly_remaining : ℤ
  pub cooling_period_minutes : ℕ
  pub next_withdrawal_allowed_at : Option ℕ

abbrev pub next_allowed : ℕ → ℕ → Option ℕ → Option ℕ
next_allowed minutes now none = none
next_allowed minutes now (some last) =
    if ltb now (last + minutes * 60 * 1000) then some (last + minutes * 60 * 1000) else none

-- `getWithdrawalLimits`
unfoldable pub get_withdrawal_limits : (ℕ → ℕ) → (ℕ → ℕ) → ℕ → ℕ → Action WithdrawalLimits
unfolding get_kyc_level withdrawal_limits last_requested
get_withdrawal_limits start_of_day start_of_month now user = do
  row ← or_raise Error.not_found (← gets (λ s. find_by User.id user s.users))
  gets (λ s. record {
    daily_limit = (limits_of row.kyc_status).daily_limit;
    daily_used = used_since user (start_of_day now) s;
    daily_remaining =
        (limits_of row.kyc_status).daily_limit -ℤ used_since user (start_of_day now) s;
    daily_count = count_since user (start_of_day now) s;
    max_daily_count = (limits_of row.kyc_status).max_daily_count;
    monthly_limit = (limits_of row.kyc_status).monthly_limit;
    monthly_used = used_since user (start_of_month now) s;
    monthly_remaining =
        (limits_of row.kyc_status).monthly_limit -ℤ used_since user (start_of_month now) s;
    cooling_period_minutes = (limits_of row.kyc_status).cooling_period_minutes;
    next_withdrawal_allowed_at =
        next_allowed (limits_of row.kyc_status).cooling_period_minutes now
          (last_requested user s.withdrawals);
  })
