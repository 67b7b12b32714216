-- ===== src/Wallet/Rounds.antt =====
-- The rounds of `deductBalance` and `lockBalance`
-- (kahade-backend/src/core/wallet/wallet.service.ts): what one round has done by how it ended, and
-- what the loop has done.
use rekberkan.Base.{
  ℕ, zero, suc, ◌+◌, ◌<◌, true, ◌≡◌, ◌⊎◌, refl, Option, some, arith, Option-cases, inl, inr,
  Bool-cases,
}
use rekberkan.Base.Int.{ℤ, ◌≤ℤ◌}
use rekberkan.Base.Table.{find_by-update_by}
use rekberkan.Store.{Store, Wallet, Action, Result, ok, err, Error}
use rekberkan.Wallet.Rows.{find_wallet, put_wallet, available, debit, lock}
use rekberkan.Wallet.Retry.{
  Others, on_conflict, is_conflict, deduct_attempt, lock_attempt, with_retries,
}

-- The loop keeps what each round keeps.
pub with_retries_inv :
    {A : Type 0} (P : Store → Type 0) (others : Others) (attempt : (Store → Store) → Action A)
    (conflict : Error)
    → ((i : ℕ) (s : Store) → P s → P (attempt (others i) s).1)
    → (left i : ℕ) (last : Error) (s : Store) → P s
    → P (with_retries others attempt conflict left i last s).1
unfolding with_retries
with_retries_inv P others attempt conflict keep zero i last s h = h
with_retries_inv P others attempt conflict keep (suc left) i last s h = ground (
  arith,
  keep i s h,
  with_retries_inv P others attempt conflict keep left (suc i) conflict (attempt (others i) s).1,
)

on_conflict-ok :
    {A : Type 0} (again : Action A) (r : Result A × Store) (a : A) (t : Store)
    → on_conflict again r ≡ (ok a, t)
    → (r ≡ (ok a, t))
      ⊎ ((e : Error) × (u : Store) × (r ≡ (err e, u))
          × (is_conflict e ≡ true)
          × (again u ≡ (ok a, t)))
on_conflict-ok again (ok b, u) a t h = inl h
on_conflict-ok again (err e, u) a t h = elim (Bool-cases (is_conflict e)) [
  | inl c ↦ inr (e, u, refl, c, rw c at h)
  | inr c ↦ absurd (ground arith)
]

-- The tables once the others have committed in the first rounds, and the call itself has written
-- nothing
abbrev pub committed : Others → ℕ → Store → Store
committed others zero s = s
committed others (suc k) s = others k (committed others k s)

-- A loop whose rounds write nothing before they lose a conflict, and that returns, has returned from
-- one of its rounds, on tables that only the others have written since the start.
pub with_retries-ok :
    {A : Type 0} (others : Others) (attempt : (Store → Store) → Action A) (conflict : Error)
    → ((i : ℕ) (s t : Store) (e : Error)
        → attempt (others i) s ≡ (err e, t)
        → is_conflict e ≡ true
        → t ≡ others i s)
    → (left i : ℕ) (last : Error) (s t : Store) (a : A)
    → with_retries others attempt conflict left i last (committed others i s) ≡ (ok a, t)
    → (k : ℕ) × (k < i + left) × (attempt (others k) (committed others k s) ≡ (ok a, t))
unfolding with_retries
with_retries-ok others attempt conflict lost zero i last s t a h = absurd (ground arith)
with_retries-ok others attempt conflict lost (suc left) i last s t a h =
    elim (on_conflict-ok _ (attempt (others i) (committed others i s)) a t h) [
      | inl e ↦ (i, omega arith, e)
      | inr (x, u, e, c, g) ↦
          let (k, p, q) =
            with_retries-ok others attempt conflict lost left (suc i) conflict s t a
              (rw (lost i (committed others i s) u x e c) at g) in
          (k, omega (arith, p), q)
    ]

-- A round that returns has debited the wallet that it then found, once, within its balance.
pub deduct_attempt-ok :
    (u : ℕ) (amount : ℤ) (meanwhile : Store → Store) (s t : Store) (r : Option Wallet)
    → deduct_attempt u amount meanwhile s ≡ (ok r, t)
    → (read w : Wallet) × (find_wallet u s ≡ some read)
      × (find_wallet u (meanwhile s) ≡ some w)
      × (w.version ≡ read.version)
      × (amount ≤ℤ available read)
      × (r ≡ some (debit amount w))
      × (t ≡ put_wallet u (debit amount) (meanwhile s))
unfolding deduct_attempt
deduct_attempt-ok u amount meanwhile s t r h = elim (Option-cases (find_wallet u s)) [
  | inl e ↦ absurd (ground arith)
  | inr (read, e) ↦ elim (Option-cases (find_wallet u (meanwhile s))) [
    | inl f ↦ absurd (ground arith)
    | inr (w, f) ↦
        let found =
          find_by-update_by Wallet.user_id u u (debit amount) (meanwhile s).wallets (λ x. refl) in
        (read, w, e, f, ground arith, ground arith, ground (arith, found), ground arith)
  ]
]

pub lock_attempt-ok :
    (u : ℕ) (amount : ℤ) (meanwhile : Store → Store) (s t : Store) (r : Option Wallet)
    → lock_attempt u amount meanwhile s ≡ (ok r, t)
    → (read w : Wallet) × (find_wallet u s ≡ some read)
      × (find_wallet u (meanwhile s) ≡ some w)
      × (w.version ≡ read.version)
      × (amount ≤ℤ available read)
      × (r ≡ some (lock amount w))
      × (t ≡ put_wallet u (lock amount) (meanwhile s))
unfolding lock_attempt
lock_attempt-ok u amount meanwhile s t r h = elim (Option-cases (find_wallet u s)) [
  | inl e ↦ absurd (ground arith)
  | inr (read, e) ↦ elim (Option-cases (find_wallet u (meanwhile s))) [
    | inl f ↦ absurd (ground arith)
    | inr (w, f) ↦
        let found =
          find_by-update_by Wallet.user_id u u (lock amount) (meanwhile s).wallets (λ x. refl) in
        (read, w, e, f, ground arith, ground arith, ground (arith, found), ground arith)
  ]
]

-- A round that throws has left what the others have committed, or nothing, behind.
pub deduct_attempt-err :
    (u : ℕ) (amount : ℤ) (meanwhile : Store → Store) (s t : Store) (e : Error)
    → deduct_attempt u amount meanwhile s ≡ (err e, t)
    → (t ≡ s) ⊎ (t ≡ meanwhile s)
unfolding deduct_attempt
deduct_attempt-err u amount meanwhile s t e h = ground arith

pub lock_attempt-err :
    (u : ℕ) (amount : ℤ) (meanwhile : Store → Store) (s t : Store) (e : Error)
    → lock_attempt u amount meanwhile s ≡ (err e, t)
    → (t ≡ s) ⊎ (t ≡ meanwhile s)
unfolding lock_attempt
lock_attempt-err u amount meanwhile s t e h = ground arith

-- A round that loses a conflict has left what the others have committed.
pub deduct_attempt-lost :
    (u : ℕ) (amount : ℤ) (meanwhile : Store → Store) (s t : Store) (e : Error)
    → deduct_attempt u amount meanwhile s ≡ (err e, t)
    → is_conflict e ≡ true
    → t ≡ meanwhile s
unfolding deduct_attempt
deduct_attempt-lost u amount meanwhile s t e h c = ground arith
