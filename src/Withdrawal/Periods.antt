-- ===== src/Withdrawal/Periods.antt =====
-- What the limits of `createWithdrawal`
-- (kahade-backend/src/core/withdrawal/withdrawal.service.ts) keep true of the tables: a user's day and
-- month stay within the limits of the level.
use rekberkan.Base.{
  ℕ, ◌+◌, ◌≤◌, ◌≡◌, Bool, none, some, List, [], ◌∷◌, ◌++◌, arith, inl, inr, Bool-cases, length,
}
use rekberkan.Base.Int.{◌+ℤ◌, ◌≤ℤ◌, ◌<ℤ◌, 0ℤ, int_laws}
use rekberkan.Base.Table.{filter_rows, sum_rows, find_by}
use rekberkan.Store.{Store, Withdrawal, User, ok}
use rekberkan.Withdrawal.Limits.{limits_of, is_counted, used_since, count_since}
use rekberkan.Withdrawal.Requests.{CreateWithdrawalDto, find_by_key, create_withdrawal}
use rekberkan.Withdrawal.Created.{create_withdrawal-ok}

count_append :
    (p : Withdrawal → Bool) (rows : List Withdrawal) (r : Withdrawal)
    → length (filter_rows p (rows ++ r ∷ [])) ≤ length (filter_rows p rows) + 1
count_append p [] r = ground arith
count_append p (x ∷ rows) r = ground (arith, count_append p rows r)

sum_append :
    (p : Withdrawal → Bool) (rows : List Withdrawal) (r : Withdrawal)
    → 0ℤ <ℤ r.amount_minor
    → sum_rows Withdrawal.amount_minor (filter_rows p (rows ++ r ∷ []))
      ≤ℤ sum_rows Withdrawal.amount_minor (filter_rows p rows) +ℤ r.amount_minor
sum_append p [] r h = elim (Bool-cases (p r)) [ inl e ↦ grind int_laws | inr e ↦ grind int_laws ]
sum_append p (x ∷ rows) r h = elim (Bool-cases (p x)) [
  | inl e ↦ grind (int_laws, sum_append p rows r h)
  | inr e ↦ grind (int_laws, sum_append p rows r h)
]

-- In the tables `t` the user's day and month, from the given dates on, are within the limits of the
-- level that the tables `s` give the user.
abbrev pub IsCapped : ℕ → ℕ → ℕ → Store → Store → Type 0
IsCapped day month id s t =
    (user : User) × (find_by User.id id s.users ≡ some user)
    × (count_since id day t ≤ (limits_of user.kyc_status).max_daily_count)
    × (used_since id day t ≤ℤ (limits_of user.kyc_status).daily_limit)
    × (used_since id month t ≤ℤ (limits_of user.kyc_status).monthly_limit)

-- When `createWithdrawal` returns for a key that has no withdrawal yet, the day and the month of the
-- user, with the new withdrawal in them, are within the limits of the user's level.
pub create_withdrawal-IsCapped :
    (start_of_day start_of_month : ℕ → ℕ) (now : ℕ) (dto : CreateWithdrawalDto) (s t : Store)
    (r : Withdrawal)
    → find_by_key dto.idempotency_key s ≡ none
    → create_withdrawal start_of_day start_of_month now dto s ≡ (ok r, t)
    → IsCapped (start_of_day now) (start_of_month now) dto.user_id s t
create_withdrawal-IsCapped start_of_day start_of_month now dto s t r e h =
    let (user, w, a, b, (within, daily, monthly, _), (row, positive, _, rows, _, _)) =
      create_withdrawal-ok start_of_day start_of_month now dto s t r e h in
    let day = is_counted dto.user_id (start_of_day now) in
    let month = is_counted dto.user_id (start_of_month now) in
    (
      user,
      a,
      rw rows (grind (arith, count_append day s.withdrawals r)),
      rw rows (grind (int_laws, sum_append day s.withdrawals r)),
      rw rows (grind (int_laws, sum_append month s.withdrawals r)),
    )
