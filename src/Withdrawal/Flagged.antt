-- ===== src/Withdrawal/Flagged.antt =====
-- What the velocity score of kahade-backend/src/core/withdrawal/withdrawal.service.ts flags
use rekberkan.Base.{ℕ, min, ◌≤◌, ◌≡◌, ◌⊎◌, true, arith, inl, inr, Bool-cases, leb}
use rekberkan.Base.Int.{ℤ, leb_ℤ, ◌≤ℤ◌}
use rekberkan.Store.{Store}
use rekberkan.Withdrawal.Velocity.{
  hourly_count_block, hourly_amount_block, recent_count, recent_amount, hour_ago, day_ago, week_ago,
  score_of, calculate_velocity_score,
}
use rekberkan.Withdrawal.Requests.{is_flagged}

score_flags :
    (hourly : ℕ) (amount : ℤ) (daily weekly : ℕ)
    → is_flagged (min (score_of hourly amount daily weekly) 100) ≡ true
    → (hourly_count_block ≤ hourly) ⊎ (hourly_amount_block ≤ℤ amount)
unfolding score_of
score_flags hourly amount daily weekly h = elim (Bool-cases (leb hourly_count_block hourly)) [
  | inl e ↦ inl (ground arith)
  | inr e ↦ elim (Bool-cases (leb_ℤ hourly_amount_block amount)) [
    | inl f ↦ inr (ground arith)
    | inr f ↦ absurd (ground arith)
  ]
]

-- A withdrawal that the velocity score flags, at 70 of at most 100, comes after three withdrawals or
-- ten million rupiah within the last hour: the counts of the day and the week alone never flag.
pub calculate_velocity_score_flags :
    (now user : ℕ) (s : Store)
    → is_flagged (calculate_velocity_score now user s).0 ≡ true
    → ((calculate_velocity_score now user s).0 ≤ 100)
      × ((hourly_count_block ≤ recent_count user (hour_ago now) s)
          ⊎ (hourly_amount_block ≤ℤ recent_amount user (hour_ago now) s))
unfolding calculate_velocity_score
calculate_velocity_score_flags now user s h = (
  ground arith,
  score_flags (recent_count user (hour_ago now) s) (recent_amount user (hour_ago now) s)
      (recent_count user (day_ago now) s) (recent_count user (week_ago now) s) h,
)
