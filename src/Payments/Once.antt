-- ===== src/Payments/Once.antt =====
-- The keys that the handlers of kahade-backend/src/core/payment/webhook.controller.ts acquire: what a
-- delivery leaves of its own key and of the others.
use rekberkan.Base.{
  ℕ, ◌+◌, ◌*◌, ◌≡◌, ◌≢◌, ◌≤◌, ◌<◌, refl, sym, ◌∙◌, Bool, true, false, arith, inl, inr, Bool-cases,
  ◌==◌, ==→eq, eq→==, if◌then◌else◌,
}
use mathlib.Core.Path.{subst}
use rekberkan.Store.{Store, Action, Result, ok, err, Error}
use rekberkan.Payments.Keys.{KeyCache}
use rekberkan.Payments.Webhooks.{Answer, webhook_ttl_seconds, finish_webhook, acquired, once}

module _ (cache : KeyCache) where
  open cache use {
    Entries, held, setnx, set, del, setnx-answer, setnx_held, setnx_refused, setnx_other, set_held,
    set_other, del_free, del_other,
  }

  -- The key is refused from one time to before another.
  abbrev pub Guarded : ℕ → ℕ → ℕ → Entries → Type 0
  Guarded from to k c = (b : ℕ) → from ≤ b → b < to → held b k c ≡ true

  abbrev pub day_after : ℕ → ℕ
  day_after now = now + webhook_ttl_seconds * 1000

  taken_over :
      (now k : ℕ) (c : Entries)
      → held now k c ≡ true
      → setnx now k webhook_ttl_seconds c ≡ (false, c)
  taken_over now k c h =
      ground (
        arith,
        setnx-answer now k webhook_ttl_seconds c,
        setnx_refused now k webhook_ttl_seconds c h,
      )

  pub once_refused :
      (now k : ℕ) (valid : Bool) (m : Action (Unit {0})) (c : Entries) (s : Store)
      → held now k c ≡ true
      → once cache now k valid m c s ≡ (Answer.duplicate, c, s)
  unfolding once acquired
  once_refused now k valid m c s h = rw (taken_over now k c h) refl

  -- The key once it is acquired
  abbrev pub keyed : ℕ → ℕ → Entries → Entries
  keyed now k c = (setnx now k webhook_ttl_seconds c).1

  acquires :
      (now k : ℕ) (c : Entries)
      → held now k c ≡ false
      → setnx now k webhook_ttl_seconds c ≡ (true, keyed now k c)
  acquires now k c h = ground (arith, setnx-answer now k webhook_ttl_seconds c)

  pub once_acquired :
      (now k : ℕ) (valid : Bool) (m : Action (Unit {0})) (c : Entries) (s : Store)
      → held now k c ≡ false
      → once cache now k valid m c s ≡ (
          if valid
          then finish_webhook cache now k (keyed now k c) (m s)
          else (Answer.thrown Error.bad_request, keyed now k c, s))
  unfolding once acquired
  once_acquired now k valid m c s h = rw (acquires now k c h) refl

  pub keyed-Guarded :
      (now k : ℕ) (c : Entries)
      → held now k c ≡ false
      → Guarded now (day_after now) k (keyed now k c)
  keyed-Guarded now k c h b p q = setnx_held now b k webhook_ttl_seconds c h p q

  pub set-Guarded :
      (now k : ℕ) (c : Entries)
      → Guarded now (day_after now) k c
      → Guarded now (day_after now) k (set now k webhook_ttl_seconds c)
  set-Guarded now k c g b p q = set_held now b k webhook_ttl_seconds c (g b p q) q

  -- A delivery of another key leaves the key alone.
  finish_other :
      (t j k b : ℕ) (c : Entries) (r : Result (Unit {0}) × Store)
      → j ≢ k
      → held b k (finish_webhook cache t j c r).1 ≡ held b k c
  unfolding finish_webhook
  finish_other t j k b c (ok r, s) d = set_other t b j k webhook_ttl_seconds c d
  finish_other t j k b c (err e, s) d = del_other b j k c d

  acquired_other :
      (t j k b : ℕ) (valid : Bool) (m : Action (Unit {0})) (x : Bool × Entries) (s : Store)
      → j ≢ k
      → held b k (acquired cache t j valid m x s).1 ≡ held b k x.1
  unfolding acquired
  acquired_other t j k b valid m (false, c) s d = refl
  acquired_other t j k b true m (true, c) s d = finish_other t j k b c (m s) d
  acquired_other t j k b false m (true, c) s d = refl

  once_other :
      (t j k b : ℕ) (valid : Bool) (m : Action (Unit {0})) (c : Entries) (s : Store)
      → j ≢ k
      → held b k (once cache t j valid m c s).1 ≡ held b k c
  unfolding once
  once_other t j k b valid m c s d =
      acquired_other t j k b valid m (setnx t j webhook_ttl_seconds c) s d
      ∙ setnx_other t b j k webhook_ttl_seconds c d

  pub once-Guarded :
      (from to k t j : ℕ) (valid : Bool) (m : Action (Unit {0})) (c : Entries) (s : Store)
      → from ≤ t
      → t < to
      → Guarded from to k c
      → Guarded from to k (once cache t j valid m c s).1
  once-Guarded from to k t j valid m c s p q g b u v = elim (Bool-cases (j == k)) [
    | inl e ↦
        rw
          (once_refused t j valid m c s
            (subst (λ i. held t i c ≡ true) (sym (==→eq j k e)) (g t p q)))
          (g b u v)
    | inr e ↦ once_other t j k b valid m c s (λ d. cc (eq→== j k d)) ∙ g b u v
  ]
