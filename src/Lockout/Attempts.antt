-- ===== src/Lockout/Attempts.antt =====
-- What failed logins lead to (kahade-backend/src/core/auth/account-lockout.service.ts): when an
-- account is locked, for how long, and what ends a lock early.
use rekberkan.Base.{
  ℕ, ◌+◌, ◌≤◌, ◌<◌, ◌≡◌, ap, ◌∙◌, true, false, ◌&&◌, Option, none, some, List, [], ◌∷◌,
  if◌then◌else◌, ltb, leb, length, arith, ◌⊎◌, inl, inr, Bool-cases,
}
use mathlib.Core.Path.{subst}
use rekberkan.Lockout.Cache.{Cache}
use rekberkan.Lockout.Service.{
  FailedAttemptRecord, LockoutConfig, check_record, check_lockout, next_record,
  record_failed_attempt,
}

abbrev pub last : ℕ → List ℕ → ℕ
last t [] = t
last t (u ∷ us) = last u us

ltb→lt : (a b : ℕ) → ltb a b ≡ true → a < b
ltb→lt a b h = ground arith

both : (a b : ℕ) → ltb a b ≡ false → ltb b a ≡ false → a ≡ b
both a b p q = ground arith

module _ (cache : Cache FailedAttemptRecord) (config : LockoutConfig) (key : ℕ) where
  open cache use {Entries, get, set, del}
  open config use {max_failed_attempts, lockout_duration_ms, attempt_window_ms}

  -- The record after that many failures, the last at that time
  abbrev pub record_of : ℕ → ℕ → FailedAttemptRecord
  record_of n t = record {
    count = n;
    last_attempt = t;
    locked_until = if leb max_failed_attempts n then some (t + lockout_duration_ms) else none;
  }

  abbrev pub kept_for : ℕ → ℕ
  kept_for n = if leb max_failed_attempts n then lockout_duration_ms else attempt_window_ms

  -- What the cache holds of it at any later time
  pub record Tracked (n t : ℕ) (c : Entries) : Type 0 where
    pub live : (b : ℕ) → t ≤ b → b < t + kept_for n → get b key c ≡ some (record_of n t)
    pub past : (b : ℕ) → t + kept_for n < b → get b key c ≡ none
    pub edge :
        (b : ℕ) → b ≡ t + kept_for n → (get b key c ≡ none) ⊎ (get b key c ≡ some (record_of n t))

  abbrev pub fail : ℕ → Entries → Entries
  fail t c = (record_failed_attempt cache config t key c).1

  abbrev pub fail_all : List ℕ → Entries → Entries
  fail_all [] c = c
  fail_all (t ∷ ts) c = fail_all ts (fail t c)

  -- Failures each of which comes within the window of the one before
  abbrev pub Spaced : ℕ → List ℕ → Type 0
  Spaced t [] = Unit {0}
  Spaced t (u ∷ us) = (t ≤ u) × (u < t + attempt_window_ms) × Spaced u us

  pub stored-Tracked :
      (n t ttl : ℕ) (r : FailedAttemptRecord) (c : Entries)
      → r ≡ record_of n t
      → ttl ≡ kept_for n
      → Tracked n t (set t key r ttl c)
  stored-Tracked n t ttl r c p q = record {
    live = λ b h g. cache.get-set_live t b key ttl r c h (rw q g) ∙ ap some p;
    past = λ b h. cache.get-set_past t b key ttl r c (rw q h);
    edge = λ b h.
        subst
          (λ z. (get b key (set t key r ttl c) ≡ none) ⊎ (get b key (set t key r ttl c) ≡ some z)) p
          (cache.get-set_last t b key ttl r c (rw q h));
  }

  next_first :
      (t : ℕ) (o : Option FailedAttemptRecord)
      → 2 ≤ max_failed_attempts
      → o ≡ none
      → ((next_record cache config t o).0 ≡ record_of 1 t)
        × ((next_record cache config t o).1 ≡ kept_for 1)
  unfolding next_record
  next_first t o m p = (ground arith, ground arith)

  next_more :
      (n t u : ℕ) (o : Option FailedAttemptRecord)
      → o ≡ some (record_of n t)
      → u < t + attempt_window_ms
      → ((next_record cache config u o).0 ≡ record_of (n + 1) u)
        × ((next_record cache config u o).1 ≡ kept_for (n + 1))
  unfolding next_record
  next_more n t u o p h = (ground arith, ground arith)

  pub first-Tracked :
      (t : ℕ) (c : Entries) → 2 ≤ max_failed_attempts → get t key c ≡ none → Tracked 1 t (fail t c)
  unfolding record_failed_attempt
  first-Tracked t c m p =
      let (a, b) = next_first t (get t key c) m p in stored-Tracked 1 t _ _ c a b

  more-Tracked :
      (n t u : ℕ) (c : Entries)
      → attempt_window_ms ≤ lockout_duration_ms
      → Tracked n t c
      → t ≤ u
      → u < t + attempt_window_ms
      → Tracked (n + 1) u (fail u c)
  unfolding record_failed_attempt
  more-Tracked n t u c w h p q =
      let (a, b) = next_more n t u (get u key c) (h.live u p (ground arith)) q in
      stored-Tracked (n + 1) u _ _ c a b

  pub fail_all-Tracked :
      (ts : List ℕ) (n t : ℕ) (c : Entries)
      → attempt_window_ms ≤ lockout_duration_ms
      → Tracked n t c
      → Spaced t ts
      → Tracked (n + length ts) (last t ts) (fail_all ts c)
  fail_all-Tracked [] n t c w h s = subst (λ m. Tracked m t c) (omega arith) h
  fail_all-Tracked (u ∷ us) n t c w h (p, q, s) =
      let k = fail_all-Tracked us (n + 1) u (fail u c) w (more-Tracked n t u c w h p q) s in
      subst (λ m. Tracked m (last u us) (fail_all us (fail u c))) (omega arith) k

  -- What a check finds of a record: it is read or gone, and at the end of its time either
  pub Tracked-cases :
      (n t b : ℕ) (c : Entries)
      → Tracked n t c
      → t ≤ b
      → ((get b key c ≡ some (record_of n t)) × (b ≤ t + kept_for n))
        ⊎ ((get b key c ≡ none) × (t + kept_for n ≤ b))
  Tracked-cases n t b c h p = elim (Bool-cases (ltb b (t + kept_for n))) [
    | inl q ↦ inl (h.live b p (omega (arith, ltb→lt b _ q)), omega (arith, ltb→lt b _ q))
    | inr q ↦ elim (Bool-cases (ltb (t + kept_for n) b)) [
      | inl r ↦ inr (h.past b (omega (arith, ltb→lt _ b r)), omega (arith, ltb→lt _ b r))
      | inr r ↦ elim (h.edge b (both b _ q r)) [
        | inl x ↦ inr (x, omega (arith, both b _ q r))
        | inr x ↦ inl (x, omega (arith, both b _ q r))
      ]
    ]
  ]

  pub is_locked_record :
      (n t b : ℕ) (c : Entries) (o : Option FailedAttemptRecord)
      → ((o ≡ some (record_of n t)) × (b ≤ t + kept_for n)) ⊎ ((o ≡ none) × (t + kept_for n ≤ b))
      → (check_record cache config b key o c).0.is_locked
        ≡ (leb max_failed_attempts n && ltb b (t + lockout_duration_ms))
  unfolding check_record
  is_locked_record n t b c o (inl (p, q)) = ground arith
  is_locked_record n t b c o (inr (p, q)) = ground arith

  -- Where the window is not longer than the lockout, more than one failure is allowed and the
  -- account has no record: after failures that each come within the window of the one before, a check
  -- finds the account locked exactly when there have been the allowed number of failures at least and
  -- the lockout, counted from the last failure, has not passed.
  pub locked_after_failures :
      (t : ℕ) (ts : List ℕ) (b : ℕ) (c : Entries)
      → 2 ≤ max_failed_attempts
      → attempt_window_ms ≤ lockout_duration_ms
      → get t key c ≡ none
      → Spaced t ts
      → last t ts ≤ b
      → (check_lockout cache config b key (fail_all (t ∷ ts) c)).0.is_locked
        ≡ (leb max_failed_attempts (1 + length ts) && ltb b (last t ts + lockout_duration_ms))
  unfolding check_lockout
  locked_after_failures t ts b c m w p s h =
      let k = fail_all-Tracked ts 1 t (fail t c) w (first-Tracked t c m p) s in
      is_locked_record (1 + length ts) (last t ts) b (fail_all ts (fail t c)) _
        (Tracked-cases (1 + length ts) (last t ts) b (fail_all ts (fail t c)) k h)
