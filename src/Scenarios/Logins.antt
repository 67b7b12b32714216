-- ===== src/Scenarios/Logins.antt =====
-- Runs of the lockout service: five failures, ten milliseconds apart.
use rekberkan.Base.{ℕ, ◌≡◌, refl, true, false, Option, none, List, [], ◌∷◌, arith}
use rekberkan.Lockout.Cache.{Cache, slots}
use rekberkan.Lockout.Service.{
  FailedAttemptRecord, LockoutConfig, check_lockout, get_remaining_attempts,
}
use rekberkan.Lockout.Attempts.{fail_all, locked_after_failures}
use rekberkan.Lockout.Ends.{lock_ends}

abbrev config : LockoutConfig
config = record {
  max_failed_attempts = 5;
  lockout_duration_ms = 900_000;
  attempt_window_ms = 300_000;
}

abbrev cache : Cache FailedAttemptRecord
cache = slots FailedAttemptRecord

abbrev failures : List ℕ
failures = 20 ∷ 30 ∷ 40 ∷ 50 ∷ []

abbrev nothing : ℕ → Option (FailedAttemptRecord × ℕ)
nothing k = none

abbrev locked_out : ℕ → Option (FailedAttemptRecord × ℕ)
locked_out = fail_all cache config 3 (10 ∷ failures) nothing

locked_after_failures_example : (check_lockout cache config 900_049 3 locked_out).0.is_locked ≡ true
locked_after_failures_example =
    locked_after_failures cache config 3 10 failures 900_049 nothing (omega arith) (omega arith)
      refl (omega arith) (omega arith)

lock_ends_example :
    let (status, c) = check_lockout cache config 900_050 3 locked_out in
    (status.is_locked ≡ false) × (get_remaining_attempts cache config 900_050 3 c ≡ 5)
lock_ends_example =
    lock_ends cache config 3 10 failures 900_050 nothing (omega arith) (omega arith) refl
      (omega arith) (omega arith) (omega arith)
