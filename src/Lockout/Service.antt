-- ===== src/Lockout/Service.antt =====
-- `AccountLockoutService` (kahade-backend/src/core/auth/account-lockout.service.ts). `now` is the time
-- that a call reads, `key` the key that `buildKey` makes of an identifier.
use rekberkan.Base.{
  ℕ, ◌+◌, ◌-◌, ◌/◌, Bool, true, false, Option, none, some, if◌then◌else◌, ltb, leb, ◌==◌,
}
use rekberkan.Lockout.Cache.{Cache}

pub record LockoutStatus : Type 0 where
  pub is_locked : Bool
  pub locked_until : Option ℕ
  pub remaining_minutes : Option ℕ
  pub failed_attempts : Option ℕ

pub record FailedAttemptRecord : Type 0 where
  pub count : ℕ
  pub last_attempt : ℕ
  pub locked_until : Option ℕ

-- What the configuration sets: "security.bruteForce"
pub record LockoutConfig : Type 0 where
  pub max_failed_attempts : ℕ
  pub lockout_duration_ms : ℕ
  pub attempt_window_ms : ℕ

abbrev pub unlocked_status : Option ℕ → LockoutStatus
unlocked_status attempts = record {
  is_locked = false;
  locked_until = none;
  remaining_minutes = none;
  failed_attempts = attempts;
}

-- `Math.ceil(remainingMs / 60000)`
abbrev pub minutes_of : ℕ → ℕ
minutes_of ms = (ms + 59_999) / 60_000

abbrev pub locked_status : ℕ → ℕ → ℕ → LockoutStatus
locked_status now until count = record {
  is_locked = true;
  locked_until = some until;
  remaining_minutes = some (minutes_of (until - now));
  failed_attempts = some count;
}

abbrev pub first_attempt : ℕ → FailedAttemptRecord
first_attempt now = record { count = 1; last_attempt = now; locked_until = none }

-- The record with one more failure
abbrev pub count_attempt : ℕ → FailedAttemptRecord → FailedAttemptRecord
count_attempt now r = record r { count = r.count + 1; last_attempt = now }

module _ (cache : Cache FailedAttemptRecord) (config : LockoutConfig) where
  open cache use {Entries, get, set, del}
  open config use {max_failed_attempts, lockout_duration_ms, attempt_window_ms}

  unfoldable pub check_record :
      ℕ → ℕ → Option FailedAttemptRecord → Entries → LockoutStatus × Entries
  check_record now key none c = (unlocked_status none, c)
  check_record now key (some r) c = elim r.locked_until [
    | none ↦ (unlocked_status (some r.count), c)
    | some until ↦
        if ltb now until
        then (locked_status now until r.count, c)
        else (unlocked_status none, del key c)
  ]

  unfoldable pub check_lockout : ℕ → ℕ → Entries → LockoutStatus × Entries
  unfolding check_record
  check_lockout now key c = check_record now key (get now key c) c

  -- The record after a failure, how long it is kept, and whether the account is now locked
  unfoldable pub next_record : ℕ → Option FailedAttemptRecord → FailedAttemptRecord × ℕ × Bool
  next_record now none = (first_attempt now, attempt_window_ms, false)
  next_record now (some r) =
      if ltb attempt_window_ms (now - r.last_attempt)
      then (first_attempt now, attempt_window_ms, false)
      else if leb max_failed_attempts (r.count + 1)
      then (
        record (count_attempt now r) { locked_until = some (now + lockout_duration_ms) },
        lockout_duration_ms,
        true,
      )
      else (count_attempt now r, attempt_window_ms, false)

  unfoldable pub record_failed_attempt : ℕ → ℕ → Entries → Bool × Entries
  unfolding next_record
  record_failed_attempt now key c =
      let (r, ttl, is_now_locked) = next_record now (get now key c) in
      (is_now_locked, set now key r ttl c)

  unfoldable pub clear_failed_attempts : ℕ → Entries → Entries
  clear_failed_attempts key c = del key c

  -- A duration of zero counts as not given.
  abbrev pub duration_or : Option ℕ → ℕ
  duration_or none = lockout_duration_ms
  duration_or (some d) = if d == 0 then lockout_duration_ms else d

  unfoldable pub lock_account : ℕ → ℕ → Option ℕ → Entries → Entries
  lock_account now key duration c =
      set now key
        (record {
          count = max_failed_attempts;
          last_attempt = now;
          locked_until = some (now + duration_or duration);
        })
        (duration_or duration) c

  unfoldable pub unlock_account : ℕ → Entries → Entries
  unlock_account key c = del key c

  abbrev remaining_of : Option FailedAttemptRecord → ℕ
  remaining_of none = max_failed_attempts
  remaining_of (some r) = max_failed_attempts - r.count

  unfoldable pub get_remaining_attempts : ℕ → ℕ → Entries → ℕ
  get_remaining_attempts now key c = remaining_of (get now key c)
