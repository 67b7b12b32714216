-- ===== src/Store/Returns.antt =====
-- What is known of a call that has returned: its guards have passed, its queries have found their
-- rows, and its transaction has been committed.
use rekberkan.Base.{◌≡◌, refl, Bool, true, false, Option, none, some, arith, inl, inr, Option-cases}
use mathlib.Core.Path.{subst}
use rekberkan.Store.Rows.{Store}
use rekberkan.Store.Monad.{
  Action, Result, ok, err, Error, ◌>>=◌, ◌>>◌, in_transaction, rolled_back, or_raise, gets,
  raise_if, existing_or,
}

-- A row that a call has found, or a check that has passed: the call goes on in the same tables.
pub found :
    {A B : Type 0} (e : Error) (f : Store → Option A) (k : A → Action B) (s t : Store) (b : B)
    → (gets f >>= λ r. or_raise e r >>= k) s ≡ (ok b, t)
    → (a : A) × (f s ≡ some a) × (k a s ≡ (ok b, t))
found e f k s t b h = elim (Option-cases (f s)) [
  | inl p ↦ ground arith
  | inr (a, p) ↦ (a, p, ground arith)
]

pub committed :
    {B : Type 0} (m : Action B) (s t : Store) (b : B)
    → in_transaction m s ≡ (ok b, t)
    → m s ≡ (ok b, t)
committed m s t b h = go (m s) h
  where
    go : {B : Type 0} {b : B} (r : Result B × Store) → rolled_back s r ≡ (ok b, t) → r ≡ (ok b, t)
    go (ok a, u) g = g
    go (err x, u) g = ground arith

-- A guard that has not thrown
pub unless_raised :
    {B : Type 0} (c : Bool) (e : Error) (k : Action B) (s t : Store) (b : B)
    → (raise_if c e >> k) s ≡ (ok b, t)
    → (c ≡ false) × (k s ≡ (ok b, t))
unless_raised true e k s t b h = absurd (ground arith)
unless_raised false e k s t b h = (refl, h)

-- What holds of the tables that a call leaves, where the call has returned
pub at_return :
    {A : Type 0} (P : Store → Type 0) {a : A} {t : Store} (m : Result A × Store)
    → m ≡ (ok a, t)
    → P m.1
    → P t
at_return P {a} {t} m h p = subst (λ r. P r.1) h p

-- Where a query finds no row, the call makes one.
pub existing_none :
    {A : Type 0} (f : Store → Option A) (m : Action A) (s t : Store) (a : A)
    → f s ≡ none
    → (gets f >>= λ r. existing_or r m) s ≡ (ok a, t)
    → m s ≡ (ok a, t)
existing_none f m s t a e h = cc
