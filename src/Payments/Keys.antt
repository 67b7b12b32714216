-- ===== src/Payments/Keys.antt =====
-- The cache as the webhooks use it (kahade-backend/src/infrastructure/cache/cache.service.ts): what they
-- rely on, and its memory mode, in which `set` writes to the cache manager, which `setnx` does not
-- read. Times are in milliseconds and given to every call that depends on them.
use rekberkan.Base.{
  ℕ, ◌+◌, ◌*◌, ◌≤◌, ◌<◌, ◌≡◌, ◌≢◌, Bool, true, false, not, Option, none, some, if◌then◌else◌, ltb,
  ◌==◌, arith, refl,
}

-- `held` tells whether `setnx` at a time refuses a key.
pub record KeyCache : Type 1 where
  pub Entries : Type 0
  pub held : ℕ → ℕ → Entries → Bool
  pub setnx : ℕ → ℕ → ℕ → Entries → Bool × Entries
  pub set : ℕ → ℕ → ℕ → Entries → Entries
  pub del : ℕ → Entries → Entries
  pub setnx-answer : (now k ttl : ℕ) (c : Entries) → (setnx now k ttl c).0 ≡ not (held now k c)
  pub setnx_held :
      (now b k ttl : ℕ) (c : Entries)
      → held now k c ≡ false
      → now ≤ b
      → b < now + ttl * 1000
      → held b k (setnx now k ttl c).1 ≡ true
  pub setnx_refused :
      (now k ttl : ℕ) (c : Entries) → held now k c ≡ true → (setnx now k ttl c).1 ≡ c
  pub setnx_other :
      (now b k j ttl : ℕ) (c : Entries) → k ≢ j → held b j (setnx now k ttl c).1 ≡ held b j c
  pub set_held :
      (now b k ttl : ℕ) (c : Entries)
      → held b k c ≡ true
      → b < now + ttl * 1000
      → held b k (set now k ttl c) ≡ true
  pub set_other :
      (now b k j ttl : ℕ) (c : Entries) → k ≢ j → held b j (set now k ttl c) ≡ held b j c
  pub del_free : (b k : ℕ) (c : Entries) → held b k (del k c) ≡ false
  pub del_other : (b k j : ℕ) (c : Entries) → k ≢ j → held b j (del k c) ≡ held b j c

-- `memoryFallback`: when each key ends
abbrev pub Fallback : Type 0
Fallback = ℕ → Option ℕ

abbrev pub is_live : ℕ → Option ℕ → Bool
is_live now none = false
is_live now (some expires) = ltb now expires

abbrev pub put : ℕ → Option ℕ → Fallback → Fallback
put k e c j = if k == j then e else c j

abbrev pub memory_setnx : ℕ → ℕ → ℕ → Fallback → Bool × Fallback
memory_setnx now k ttl c =
    if is_live now (c k) then (false, c) else (true, put k (some (now + ttl * 1000)) c)

abbrev pub memory_del : ℕ → Fallback → Fallback
memory_del k c = put k none c

module _ (c : Fallback) where
  pub memory_answer : (now k ttl : ℕ) → (memory_setnx now k ttl c).0 ≡ not (is_live now (c k))
  memory_answer now k ttl = ground arith

  pub memory_held :
      (now b k ttl : ℕ)
      → is_live now (c k) ≡ false
      → now ≤ b
      → b < now + ttl * 1000
      → is_live b ((memory_setnx now k ttl c).1 k) ≡ true
  memory_held now b k ttl h p q = ground arith

  pub memory_refused : (now k ttl : ℕ) → is_live now (c k) ≡ true → (memory_setnx now k ttl c).1 ≡ c
  memory_refused now k ttl h = ground arith

  pub memory_other :
      (now b k j ttl : ℕ) → k ≢ j → is_live b ((memory_setnx now k ttl c).1 j) ≡ is_live b (c j)
  memory_other now b k j ttl h = ground arith

  pub memory_free : (b k : ℕ) → is_live b (memory_del k c k) ≡ false
  memory_free b k = ground arith

  pub memory_del_other : (b k j : ℕ) → k ≢ j → is_live b (memory_del k c j) ≡ is_live b (c j)
  memory_del_other b k j h = ground arith

abbrev pub memory : KeyCache
memory = record {
  Entries = Fallback;
  held = λ b k c. is_live b (c k);
  setnx = memory_setnx;
  set = λ now k ttl c. c;
  del = memory_del;
  setnx-answer = λ now k ttl c. memory_answer c now k ttl;
  setnx_held = λ now b k ttl c. memory_held c now b k ttl;
  setnx_refused = λ now k ttl c. memory_refused c now k ttl;
  setnx_other = λ now b k j ttl c. memory_other c now b k j ttl;
  set_held = λ now b k ttl c h p. h;
  set_other = λ now b k j ttl c h. refl;
  del_free = λ b k c. memory_free c b k;
  del_other = λ b k j c. memory_del_other c b k j;
}
