-- ===== src/Lockout/Cache.antt =====
-- The cache of the lockout service (`cacheManager` in
-- kahade-backend/src/core/auth/account-lockout.service.ts), of which a library is the implementation:
-- what the service relies on, and an implementation of it.
use rekberkan.Base.{
  ℕ, ◌+◌, ◌≤◌, ◌<◌, ◌≡◌, ◌≢◌, ◌⊎◌, inl, Option, none, some, if◌then◌else◌, ltb, ◌==◌, arith,
}

-- A value that is set for a time is read until that time has passed, and not after it; whether it is
-- read at its last moment is left open. Times are given to every call that depends on them.
pub record Cache (A : Type 0) : Type 1 where
  pub Entries : Type 0
  pub get : ℕ → ℕ → Entries → Option A
  pub set : ℕ → ℕ → A → ℕ → Entries → Entries
  pub del : ℕ → Entries → Entries
  pub get-set_live :
      (now b k ttl : ℕ) (v : A) (c : Entries)
      → now ≤ b
      → b < now + ttl
      → get b k (set now k v ttl c) ≡ some v
  pub get-set_past :
      (now b k ttl : ℕ) (v : A) (c : Entries) → now + ttl < b → get b k (set now k v ttl c) ≡ none
  pub get-set_last :
      (now b k ttl : ℕ) (v : A) (c : Entries)
      → b ≡ now + ttl
      → (get b k (set now k v ttl c) ≡ none) ⊎ (get b k (set now k v ttl c) ≡ some v)
  pub get-set_other :
      (now b k j ttl : ℕ) (v : A) (c : Entries) → k ≢ j → get b j (set now k v ttl c) ≡ get b j c
  pub get-del : (b k : ℕ) (c : Entries) → get b k (del k c) ≡ none
  pub get-del_other : (b k j : ℕ) (c : Entries) → k ≢ j → get b j (del k c) ≡ get b j c

-- A cache that remembers each value with the time at which it ends
abbrev pub read_slot : {A : Type 0} → ℕ → Option (A × ℕ) → Option A
read_slot b none = none
read_slot b (some (v, until)) = if ltb b until then some v else none

abbrev pub put : {A : Type 0} → ℕ → ℕ → A → ℕ → (ℕ → Option (A × ℕ)) → ℕ → Option (A × ℕ)
put now k v ttl c j = if k == j then some (v, now + ttl) else c j

abbrev pub drop : {A : Type 0} → ℕ → (ℕ → Option (A × ℕ)) → ℕ → Option (A × ℕ)
drop k c j = if k == j then none else c j

module _ {A : Type 0} (c : ℕ → Option (A × ℕ)) where
  pub slot_live :
      (now b k ttl : ℕ) (v : A)
      → now ≤ b
      → b < now + ttl
      → read_slot b (put now k v ttl c k) ≡ some v
  slot_live now b k ttl v h g = ground arith

  pub slot_past :
      (now b k ttl : ℕ) (v : A) → now + ttl < b → read_slot b (put now k v ttl c k) ≡ none
  slot_past now b k ttl v h = ground arith

  pub slot_last :
      (now b k ttl : ℕ) (v : A)
      → b ≡ now + ttl
      → (read_slot b (put now k v ttl c k) ≡ none) ⊎ (read_slot b (put now k v ttl c k) ≡ some v)
  slot_last now b k ttl v h = inl (ground arith)

  pub slot_other :
      (now b k j ttl : ℕ) (v : A) → k ≢ j → read_slot b (put now k v ttl c j) ≡ read_slot b (c j)
  slot_other now b k j ttl v h = ground arith

  pub slot_del : (b k : ℕ) → read_slot b (drop k c k) ≡ none
  slot_del b k = ground arith

  pub slot_del_other : (b k j : ℕ) → k ≢ j → read_slot b (drop k c j) ≡ read_slot b (c j)
  slot_del_other b k j h = ground arith

abbrev pub slots : (A : Type 0) → Cache A
slots A = record {
  Entries = ℕ → Option (A × ℕ);
  get = λ b k c. read_slot b (c k);
  set = put;
  del = drop;
  get-set_live = λ now b k ttl v c. slot_live c now b k ttl v;
  get-set_past = λ now b k ttl v c. slot_past c now b k ttl v;
  get-set_last = λ now b k ttl v c. slot_last c now b k ttl v;
  get-set_other = λ now b k j ttl v c. slot_other c now b k j ttl v;
  get-del = λ b k c. slot_del c b k;
  get-del_other = λ b k j c. slot_del_other c b k j;
}
