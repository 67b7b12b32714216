-- ===== src/Withdrawal/Caps.antt =====
-- The limits of `createWithdrawal`
-- (kahade-backend/src/core/withdrawal/withdrawal.service.ts) and what they bound.
use rekberkan.Base.{
  ℕ, ◌+◌, ◌*◌, ◌≤◌, ◌<◌, ◌≡◌, ◌↔◌, refl, false, Option, none, some, arith, inl, inr, Option-cases,
  Bool-cases, leb,
}
use rekberkan.Base.Int.{ℤ, ◌+ℤ◌, ◌-ℤ◌, ◌≤ℤ◌, ltb_ℤ, int_laws}
use rekberkan.Store.{Store, KycStatus, ok}
use rekberkan.Withdrawal.Limits.{
  Limits, limits_of, used_since, count_since, last_requested, cooling_wait, check_cooling,
  validate_withdrawal_limits,
}

-- The cooling period after the last withdrawal, if there is one, is over.
abbrev pub IsCooled : ℕ → ℕ → Option ℕ → Type 0
IsCooled minutes now none = Unit
IsCooled minutes now (some last) = last + minutes * 60000 ≤ now

-- A request that the limits of a level let through
abbrev pub IsWithin : (ℕ → ℕ) → (ℕ → ℕ) → ℕ → ℕ → ℤ → Limits → Store → Type 0
IsWithin start_of_day start_of_month now user amount limits s =
    (count_since user (start_of_day now) s < limits.max_daily_count)
    × (used_since user (start_of_day now) s +ℤ amount ≤ℤ limits.daily_limit)
    × (used_since user (start_of_month now) s +ℤ amount ≤ℤ limits.monthly_limit)
    × IsCooled limits.cooling_period_minutes now (last_requested user s.withdrawals)

cooling_wait-none :
    (minutes now last : ℕ) → (cooling_wait minutes now last ≡ none) ↔ (last + minutes * 60000 ≤ now)
unfolding cooling_wait
cooling_wait-none minutes now last = (λ h. ground arith, λ h. ground arith)

check_cooling_iff :
    (minutes now : ℕ) (last : Option ℕ) (s : Store)
    → (check_cooling minutes now last s ≡ (ok tt, s)) ↔ IsCooled minutes now last
check_cooling_iff minutes now none s = (λ h. tt, λ h. refl)
check_cooling_iff minutes now (some last) s = elim (Option-cases (cooling_wait minutes now last)) [
  | inl e ↦ (λ h. (cooling_wait-none minutes now last).0 e, λ h. ground arith)
  | inr (wait, e) ↦
      (λ h. absurd (ground arith), λ h. absurd (cc ((cooling_wait-none minutes now last).1 h)))
]

below : (limit used amount : ℤ) → ltb_ℤ (limit -ℤ used) amount ≡ false → used +ℤ amount ≤ℤ limit
below limit used amount h = grind int_laws

not_above : (limit used amount : ℤ) → used +ℤ amount ≤ℤ limit → ltb_ℤ (limit -ℤ used) amount ≡ false
not_above limit used amount h = grind int_laws

IsWithin-of_ok :
    (start_of_day start_of_month : ℕ → ℕ) (now user : ℕ) (amount : ℤ) (kyc : Option KycStatus)
    (s : Store)
    → validate_withdrawal_limits start_of_day start_of_month now user amount kyc s ≡ (ok tt, s)
    → IsWithin start_of_day start_of_month now user amount (limits_of kyc) s
unfolding validate_withdrawal_limits
IsWithin-of_ok start_of_day start_of_month now user amount kyc s h =
    elim (Bool-cases
      (leb (limits_of kyc).max_daily_count (count_since user (start_of_day now) s))) [
        | inl a ↦ absurd (ground arith)
        | inr a ↦
            elim (Bool-cases (
              ltb_ℤ ((limits_of kyc).daily_limit -ℤ used_since user (start_of_day now) s) amount)) [
                | inl b ↦ absurd (ground arith)
                | inr b ↦
                    elim (Bool-cases (
                      ltb_ℤ
                        ((limits_of kyc).monthly_limit -ℤ used_since user (start_of_month now) s)
                        amount)) [
                          | inl c ↦ absurd (ground arith)
                          | inr c ↦ (
                            ground arith,
                            below _ _ amount b,
                            below _ _ amount c,
                            (check_cooling_iff (limits_of kyc).cooling_period_minutes now
                                  (last_requested user s.withdrawals) s).0
                                (ground arith),
                          )
                        ]
              ]
      ]

ok_of_within :
    (start_of_day start_of_month : ℕ → ℕ) (now user : ℕ) (amount : ℤ) (kyc : Option KycStatus)
    (s : Store)
    → IsWithin start_of_day start_of_month now user amount (limits_of kyc) s
    → validate_withdrawal_limits start_of_day start_of_month now user amount kyc s ≡ (ok tt, s)
unfolding validate_withdrawal_limits
ok_of_within start_of_day start_of_month now user amount kyc s (a, b, c, d) = ground (
  arith,
  not_above _ _ amount b,
  not_above _ _ amount c,
  (check_cooling_iff (limits_of kyc).cooling_period_minutes now (last_requested user s.withdrawals)
        s).1
      d,
)

-- `validateWithdrawalLimits` passes exactly the requests that keep the day below its number of
-- withdrawals and its amount, the month below its amount, and come after the cooling period.
pub validate_withdrawal_limits_iff :
    (start_of_day start_of_month : ℕ → ℕ) (now user : ℕ) (amount : ℤ) (kyc : Option KycStatus)
    (s : Store)
    → (validate_withdrawal_limits start_of_day start_of_month now user amount kyc s ≡ (ok tt, s))
      ↔ IsWithin start_of_day start_of_month now user amount (limits_of kyc) s
validate_withdrawal_limits_iff start_of_day start_of_month now user amount kyc s = (
  IsWithin-of_ok start_of_day start_of_month now user amount kyc s,
  ok_of_within start_of_day start_of_month now user amount kyc s,
)
