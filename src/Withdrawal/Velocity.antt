-- ===== src/Withdrawal/Velocity.antt =====
-- The velocity score of `WithdrawalService`
-- (kahade-backend/src/core/withdrawal/withdrawal.service.ts): `VELOCITY_THRESHOLDS` and
-- `calculateVelocityScore`.
use rekberkan.Base.{
  ℕ, ◌+◌, ◌-◌, ◌*◌, min, Bool, Option, none, some, List, [], ◌∷◌, ◌++◌, if◌then◌else◌, ◌==◌, ◌&&◌,
  leb, length,
}
use rekberkan.Base.Int.{ℤ, pos, leb_ℤ}
use rekberkan.Base.Table.{filter_rows, sum_rows}
use rekberkan.Store.{Store, Withdrawal, FlagReason}

-- `VELOCITY_THRESHOLDS`
abbrev pub hourly_count_warning : ℕ
hourly_count_warning = 2

abbrev pub hourly_count_block : ℕ
hourly_count_block = 3

abbrev pub hourly_amount_warning : ℤ
hourly_amount_warning = pos (5000000 * 100)

abbrev pub hourly_amount_block : ℤ
hourly_amount_block = pos (10000000 * 100)

abbrev pub velocity_score_warning : ℕ
velocity_score_warning = 70

-- The aggregates over the last hour, day and week
abbrev pub is_recent : ℕ → ℕ → Withdrawal → Bool
is_recent user since w = w.user_id == user && leb since w.requested_at

abbrev pub recent_count : ℕ → ℕ → Store → ℕ
recent_count user since s = length (filter_rows (is_recent user since) s.withdrawals)

abbrev pub recent_amount : ℕ → ℕ → Store → ℤ
recent_amount user since s =
    sum_rows Withdrawal.amount_minor (filter_rows (is_recent user since) s.withdrawals)

abbrev pub hour_ago : ℕ → ℕ
hour_ago now = now - 60 * 60 * 1000

abbrev pub day_ago : ℕ → ℕ
day_ago now = now - 24 * 60 * 60 * 1000

abbrev pub week_ago : ℕ → ℕ
week_ago now = now - 7 * 24 * 60 * 60 * 1000

unfoldable pub score_of : ℕ → ℤ → ℕ → ℕ → ℕ
score_of hourly_count hourly_amount daily_count weekly_count =
    (if leb hourly_count_block hourly_count
      then 40
      else if leb hourly_count_warning hourly_count
      then 20
      else 0)
    + (if leb_ℤ hourly_amount_block hourly_amount
        then 30
        else if leb_ℤ hourly_amount_warning hourly_amount
        then 15
        else 0)
    + (if leb 10 daily_count then 20 else if leb 5 daily_count then 10 else 0)
    + (if leb 30 weekly_count then 10 else 0)

abbrev pub reason_if : Bool → FlagReason → List FlagReason
reason_if c r = if c then r ∷ [] else []

unfoldable pub reasons_of : ℕ → ℤ → ℕ → ℕ → List FlagReason
reasons_of hourly_count hourly_amount daily_count weekly_count =
    reason_if (leb hourly_count_block hourly_count) FlagReason.high_hourly_count
    ++ (reason_if (leb_ℤ hourly_amount_block hourly_amount) FlagReason.high_hourly_amount
        ++ (reason_if (leb 10 daily_count) FlagReason.high_daily_count
            ++ reason_if (leb 30 weekly_count) FlagReason.high_weekly_count))

abbrev pub joined : List FlagReason → Option (List FlagReason)
joined [] = none
joined (r ∷ rs) = some (r ∷ rs)

-- `calculateVelocityScore`: the score and the reasons
unfoldable pub calculate_velocity_score : ℕ → ℕ → Store → ℕ × Option (List FlagReason)
unfolding score_of reasons_of
calculate_velocity_score now user s = (
  min
      (score_of (recent_count user (hour_ago now) s) (recent_amount user (hour_ago now) s)
        (recent_count user (day_ago now) s) (recent_count user (week_ago now) s))
      100,
  joined (
      reasons_of (recent_count user (hour_ago now) s) (recent_amount user (hour_ago now) s)
        (recent_count user (day_ago now) s) (recent_count user (week_ago now) s)),
)
