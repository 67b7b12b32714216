-- ===== src/Store/Endings.antt =====
-- What holds of the tables that a call leaves, however it ends, from what its guards let pass: the
-- rules follow the shape of a `do` block from its first line on.
use rekberkan.Base.{◌≡◌, refl, sym, Bool, true, false, Option, none, some}
use mathlib.Core.Path.{subst}
use rekberkan.Store.Rows.{Store}
use rekberkan.Store.Monad.{
  Action, Result, ok, err, Error, ◌>>=◌, ◌>>◌, then_call, raise_if, gets, or_raise,
}
use rekberkan.Store.Rules.{IsAtomic}

module _ (P : Store → Type 0) where
  -- A query that finds a row or ends the call
  pub ends-found :
      {A B : Type 0} (e : Error) (f : Store → Option A) (k : A → Action B) (s : Store)
      → P s
      → ((a : A) → f s ≡ some a → P (k a s).1)
      → P ((gets f >>= λ r. or_raise e r >>= k) s).1
  ends-found {A} {B} e f k s p h = go (f s) h
    where
      go : (x : Option A) → ((a : A) → x ≡ some a → P (k a s).1) → P ((or_raise e x >>= k) s).1
      go none g = p
      go (some a) g = g a refl

  -- A guard that passes or ends the call
  pub ends-unless :
      {B : Type 0} (c : Bool) (e : Error) (k : Action B) (s : Store)
      → P s
      → (c ≡ false → P (k s).1)
      → P ((raise_if c e >> k) s).1
  ends-unless true e k s p h = p
  ends-unless false e k s p h = h refl

  -- A call that goes on in the tables that its first part has left
  pub ends-then :
      {A B : Type 0} (m : Action A) (k : A → Action B) (s : Store)
      → P (m s).1
      → ((a : A) (t : Store) → m s ≡ (ok a, t) → P (k a t).1)
      → P ((m >>= k) s).1
  ends-then {A} {B} m k s p h = go (m s) p h
    where
      go :
          (x : Result A × Store)
          → P x.1
          → ((a : A) (t : Store) → x ≡ (ok a, t) → P (k a t).1)
          → P (then_call k x).1
      go (ok a, t) p g = g a t refl
      go (err e, t) p g = p

  -- A call that is all or nothing
  pub ends-atomic :
      {A : Type 0} (m : Action A) (s : Store)
      → IsAtomic m
      → P s
      → ((a : A) (t : Store) → m s ≡ (ok a, t) → P t)
      → P (m s).1
  ends-atomic {A} m s atom p h = go (m s) refl
    where
      go : (x : Result A × Store) → m s ≡ x → P x.1
      go (ok a, t) q = h a t q
      go (err e, t) q = subst P (sym (atom.undone s t e q)) p
