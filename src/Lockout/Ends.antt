-- ===== src/Lockout/Ends.antt =====
-- How a lock ends (kahade-backend/src/core/auth/account-lockout.service.ts): by itself when its time
-- has passed, and too early when another failure comes after the window.
use rekberkan.Base.{
  ℕ, ◌+◌, ◌≤◌, ◌<◌, ◌≡◌, refl, true, false, Option, none, some, List, ◌∷◌, length, arith, ◌⊎◌, inl,
  inr, ◌∙◌,
}
use rekberkan.Lockout.Cache.{Cache}
use rekberkan.Lockout.Service.{
  FailedAttemptRecord, LockoutConfig, check_record, check_lockout, next_record,
  record_failed_attempt, get_remaining_attempts,
}
use rekberkan.Lockout.Attempts.{
  last, record_of, kept_for, Tracked, fail, fail_all, Spaced, fail_all-Tracked, first-Tracked,
  stored-Tracked, Tracked-cases, is_locked_record, locked_after_failures,
}

module _ (cache : Cache FailedAttemptRecord) (config : LockoutConfig) (key : ℕ) where
  open cache use {Entries, get, del}
  open config use {max_failed_attempts, lockout_duration_ms, attempt_window_ms}

  ends_record :
      (n t b : ℕ) (c : Entries) (o : Option FailedAttemptRecord)
      → get b key c ≡ o
      → max_failed_attempts ≤ n
      → t + lockout_duration_ms ≤ b
      → ((o ≡ some (record_of cache config key n t)) × (b ≤ t + kept_for cache config key n))
        ⊎ ((o ≡ none) × (t + kept_for cache config key n ≤ b))
      → ((check_record cache config b key o c).0.is_locked ≡ false)
        × (get_remaining_attempts cache config b key (check_record cache config b key o c).1
            ≡ max_failed_attempts)
  unfolding check_record get_remaining_attempts
  ends_record n t b c o e m h (inl (p, q)) = (ground arith, ground (arith, cache.get-del b key c))
  ends_record n t b c o e m h (inr (p, q)) = (ground arith, ground arith)

  -- Where the window is not longer than the lockout, more than one failure is allowed and the
  -- account has no record: after failures that lock the account, each within the window of the one
  -- before, a check at any time from the end of the lockout on finds the account unlocked, and leaves
  -- it all the allowed attempts.
  pub lock_ends :
      (t : ℕ) (ts : List ℕ) (b : ℕ) (c : Entries)
      → 2 ≤ max_failed_attempts
      → attempt_window_ms ≤ lockout_duration_ms
      → get t key c ≡ none
      → Spaced cache config key t ts
      → max_failed_attempts ≤ 1 + length ts
      → last t ts + lockout_duration_ms ≤ b
      → let (status, c') =
          check_lockout cache config b key (fail_all cache config key (t ∷ ts) c) in
        (status.is_locked ≡ false)
        × (get_remaining_attempts cache config b key c' ≡ max_failed_attempts)
  unfolding check_lockout
  lock_ends t ts b c m w p s n h =
      let c1 = fail_all cache config key ts (fail cache config key t c) in
      let k =
        fail_all-Tracked cache config key ts 1 t (fail cache config key t c) w
          (first-Tracked cache config key t c m p) s in
      ends_record (1 + length ts) (last t ts) b c1 (get b key c1) refl n h
        (Tracked-cases cache config key (1 + length ts) (last t ts) b c1 k (omega arith))

  next_late :
      (n t u : ℕ) (o : Option FailedAttemptRecord)
      → 2 ≤ max_failed_attempts
      → o ≡ some (record_of cache config key n t)
      → t + attempt_window_ms < u
      → ((next_record cache config u o).0 ≡ record_of cache config key 1 u)
        × ((next_record cache config u o).1 ≡ kept_for cache config key 1)
  unfolding next_record
  next_late n t u o m p h = (ground arith, ground arith)

  late-Tracked :
      (n t u : ℕ) (c : Entries)
      → 2 ≤ max_failed_attempts
      → max_failed_attempts ≤ n
      → Tracked cache config key n t c
      → t + attempt_window_ms < u
      → u < t + lockout_duration_ms
      → Tracked cache config key 1 u (fail cache config key u c)
  unfolding record_failed_attempt
  late-Tracked n t u c m q k h g =
      let (a, b) = next_late n t u (get u key c) m (k.live u (omega arith) (ground arith)) h in
      stored-Tracked cache config key 1 u _ _ c a b

  not_locked :
      (u : ℕ) (c : Entries)
      → 2 ≤ max_failed_attempts
      → Tracked cache config key 1 u c
      → (check_lockout cache config u key c).0.is_locked ≡ false
  unfolding check_lockout
  not_locked u c m k =
      is_locked_record cache config key 1 u u c (get u key c)
        (Tracked-cases cache config key 1 u u c k (omega arith))
      ∙ ground arith

  -- Where the window is not longer than the lockout, more than one failure is allowed and the account
  -- has no record: after failures that lock the
  -- account, each within the window of the one before, one more failure while the account is locked,
  -- but later than the window, unlocks it.
  pub late_failure_unlocks :
      (t : ℕ) (ts : List ℕ) (u : ℕ) (c : Entries)
      → 2 ≤ max_failed_attempts
      → attempt_window_ms ≤ lockout_duration_ms
      → get t key c ≡ none
      → Spaced cache config key t ts
      → max_failed_attempts ≤ 1 + length ts
      → last t ts + attempt_window_ms < u
      → u < last t ts + lockout_duration_ms
      → let c1 = fail_all cache config key (t ∷ ts) c in
        ((check_lockout cache config u key c1).0.is_locked ≡ true)
        × ((check_lockout cache config u key (fail cache config key u c1)).0.is_locked ≡ false)
  late_failure_unlocks t ts u c m w p s n h g =
      let c1 = fail_all cache config key (t ∷ ts) c in
      let k =
        fail_all-Tracked cache config key ts 1 t (fail cache config key t c) w
          (first-Tracked cache config key t c m p) s in
      let k' = late-Tracked (1 + length ts) (last t ts) u c1 m n k h g in
      (
        locked_after_failures cache config key t ts u c m w p s (omega arith) ∙ ground arith,
        not_locked u (fail cache config key u c1) m k',
      )
