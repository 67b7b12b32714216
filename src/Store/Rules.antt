-- ===== src/Store/Rules.antt =====
-- What a call does to the tables, put together from what its parts do: `Preserves P m` says that `m`
-- keeps `P` however it ends, `IsReadOnly m` that it writes nothing, and `IsAtomic m` that it has
-- written nothing when it throws. The rules follow the shape of a `do` block.
use rekberkan.Base.{◌≡◌, refl, sym, ◌∙◌, ap, Bool, true, false, Option, none, some, if◌then◌else◌}
use mathlib.Core.Path.{subst}
use rekberkan.Store.Rows.{Store}
use rekberkan.Store.Monad.{
  Action, Result, ok, err, Error, ◌>>=◌, ◌>>◌, then_call, pure, raise, raise_if, gets, or_raise,
  modify, in_transaction, existing_or, rolled_back,
}

pub record Preserves {A : Type 0} (P : Store → Type 0) (m : Action A) : Type 0 where
  pub holds : (s : Store) → P s → P (m s).1

pub record IsReadOnly {A : Type 0} (m : Action A) : Type 0 where
  pub same : (s : Store) → (m s).1 ≡ s

pub record IsAtomic {A : Type 0} (m : Action A) : Type 0 where
  pub undone : (s t : Store) (e : Error) → m s ≡ (err e, t) → t ≡ s

-- Rules for `IsReadOnly`
pub pure-IsReadOnly : {A : Type 0} (a : A) → IsReadOnly (pure a)
pure-IsReadOnly a = record { same = λ s. refl }

pub raise-IsReadOnly : {A : Type 0} (e : Error) → IsReadOnly (raise {A = A} e)
raise-IsReadOnly e = record { same = λ s. refl }

pub gets-IsReadOnly : {A : Type 0} (f : Store → A) → IsReadOnly (gets f)
gets-IsReadOnly f = record { same = λ s. refl }

pub or_raise-IsReadOnly : {A : Type 0} (e : Error) (o : Option A) → IsReadOnly (or_raise e o)
or_raise-IsReadOnly e none = record { same = λ s. refl }
or_raise-IsReadOnly e (some a) = record { same = λ s. refl }

pub raise_if-IsReadOnly : (c : Bool) (e : Error) → IsReadOnly (raise_if c e)
raise_if-IsReadOnly c e = record { same = λ s. refl }

-- The tables after a sequence, by how its first part ends.
then_call-same :
    {A B : Type 0} (P : Store → Type 0) (f : A → Action B) (r : Result A × Store)
    → P r.1
    → ((a : A) (s : Store) → P s → P (f a s).1)
    → P (then_call f r).1
then_call-same P f (ok a, s) h k = k a s h
then_call-same P f (err e, s) h k = h

-- Rules for `Preserves`
pub Preserves->>= :
    {A B : Type 0} {P : Store → Type 0} {m : Action A} {f : A → Action B}
    → Preserves P m
    → ((a : A) → Preserves P (f a))
    → Preserves P (m >>= f)
Preserves->>= {P} {m} {f} h k = record {
  holds = λ s p. then_call-same P f (m s) (h.holds s p) (λ a t q. (k a).holds t q);
}

pub Preserves->> :
    {A B : Type 0} {P : Store → Type 0} {m : Action A} {k : Action B}
    → Preserves P m
    → Preserves P k
    → Preserves P (m >> k)
Preserves->> {P} {m} {k} h g = record {
  holds = λ s p. then_call-same P (λ _. k) (m s) (h.holds s p) (λ a t q. g.holds t q);
}

pub IsReadOnly-Preserves :
    {A : Type 0} (P : Store → Type 0) {m : Action A} → IsReadOnly m → Preserves P m
IsReadOnly-Preserves P h = record { holds = λ s p. subst P (sym (h.same s)) p }

rolled_back-keeps :
    {A : Type 0} (P : Store → Type 0) (s : Store) (r : Result A × Store)
    → P s
    → P r.1
    → P (rolled_back s r).1
rolled_back-keeps P s (ok a, t) p q = q
rolled_back-keeps P s (err e, t) p q = p

pub in_transaction-Preserves :
    {A : Type 0} {P : Store → Type 0} {m : Action A}
    → Preserves P m
    → Preserves P (in_transaction m)
in_transaction-Preserves {P} {m} h = record {
  holds = λ s p. rolled_back-keeps P s (m s) p (h.holds s p);
}

pub modify-Preserves :
    {P : Store → Type 0} (f : Store → Store)
    → ((s : Store) → P s → P (f s))
    → Preserves P (modify f)
modify-Preserves f h = record { holds = h }

-- Rules for `IsAtomic`
rolled_back-undone :
    {A : Type 0} (s t : Store) (e : Error) (r : Result A × Store)
    → rolled_back s r ≡ (err e, t)
    → t ≡ s
rolled_back-undone s t e (ok a, u) h = cc
rolled_back-undone s t e (err x, u) h = cc

pub in_transaction-IsAtomic : {A : Type 0} (m : Action A) → IsAtomic (in_transaction m)
in_transaction-IsAtomic m = record { undone = λ s t e h. rolled_back-undone s t e (m s) h }

pub IsReadOnly-IsAtomic : {A : Type 0} {m : Action A} → IsReadOnly m → IsAtomic m
IsReadOnly-IsAtomic h = record { undone = λ s t e q. sym (ap (λ r. r.1) q) ∙ h.same s }

then_call-undone :
    {A B : Type 0} (f : A → Action B) (s t : Store) (e : Error) (r : Result A × Store)
    → r.1 ≡ s
    → ((a : A) → IsAtomic (f a))
    → then_call f r ≡ (err e, t)
    → t ≡ s
then_call-undone f s t e (ok a, u) q k h = (k a).undone u t e h ∙ q
then_call-undone f s t e (err x, u) q k h = cc

pub IsAtomic->>= :
    {A B : Type 0} {m : Action A} {f : A → Action B}
    → IsReadOnly m
    → ((a : A) → IsAtomic (f a))
    → IsAtomic (m >>= f)
IsAtomic->>= {m} {f} h k = record {
  undone = λ s t e q. then_call-undone f s t e (m s) (h.same s) k q;
}

pub IsAtomic->> :
    {A B : Type 0} {m : Action A} {k : Action B} → IsReadOnly m → IsAtomic k → IsAtomic (m >> k)
IsAtomic->> {m} {k} h g = record {
  undone = λ s t e q. then_call-undone (λ _. k) s t e (m s) (h.same s) (λ _. g) q;
}

pub Preserves-existing_or :
    {A : Type 0} {P : Store → Type 0} (o : Option A) {m : Action A}
    → Preserves P m
    → Preserves P (existing_or o m)
Preserves-existing_or none h = h
Preserves-existing_or (some a) h = IsReadOnly-Preserves _ (pure-IsReadOnly a)

pub Preserves-if :
    {A : Type 0} {P : Store → Type 0} (c : Bool) {m k : Action A}
    → Preserves P m
    → Preserves P k
    → Preserves P (if c then m else k)
Preserves-if true h g = h
Preserves-if false h g = g

pub IsAtomic-existing_or :
    {A : Type 0} (o : Option A) {m : Action A} → IsAtomic m → IsAtomic (existing_or o m)
IsAtomic-existing_or none h = h
IsAtomic-existing_or (some a) h = IsReadOnly-IsAtomic (pure-IsReadOnly a)

pub IsAtomic-if :
    {A : Type 0} (c : Bool) {m k : Action A}
    → IsAtomic m
    → IsAtomic k
    → IsAtomic (if c then m else k)
IsAtomic-if true h g = h
IsAtomic-if false h g = g

-- A sequence of reads
pub IsReadOnly->>= :
    {A B : Type 0} {m : Action A} {f : A → Action B}
    → IsReadOnly m
    → ((a : A) → IsReadOnly (f a))
    → IsReadOnly (m >>= f)
IsReadOnly->>= {m} {f} h k = record {
  same = λ s. then_call-same (λ t. t ≡ s) f (m s) (h.same s) (λ a t q. (k a).same t ∙ q);
}

pub IsReadOnly->> :
    {A B : Type 0} {m : Action A} {k : Action B} → IsReadOnly m → IsReadOnly k → IsReadOnly (m >> k)
IsReadOnly->> {m} {k} h g = IsReadOnly->>= h (λ _. g)

pub ruleset reads =
    (pure-IsReadOnly, raise-IsReadOnly, gets-IsReadOnly, or_raise-IsReadOnly, raise_if-IsReadOnly)

pub ruleset atomic =
    (IsAtomic->>=, IsAtomic->>, in_transaction-IsAtomic, IsReadOnly-IsAtomic, IsAtomic-existing_or)

-- A call that is all or nothing keeps what its returns keep.
pub Preserves-of-ok :
    {A : Type 0} (P : Store → Type 0) {m : Action A}
    → IsAtomic m
    → ((s t : Store) (a : A) → m s ≡ (ok a, t) → P s → P t)
    → Preserves P m
Preserves-of-ok P {m} atom k = record { holds = λ s p. go s p (m s) refl }
  where
    go : (s : Store) → P s → (r : Result _ × Store) → m s ≡ r → P r.1
    go s p (ok a, t) h = k s t a h p
    go s p (err e, t) h = subst P (sym (atom.undone s t e h)) p

-- How a call may end that is all or nothing: a throw leaves the tables that it began with.
abbrev pub Undone : {A : Type 0} → Store → Result A × Store → Type 0
Undone s (ok a, t) = Unit
Undone s (err e, t) = t ≡ s

pub IsAtomic-Undone : {A : Type 0} {m : Action A} → IsAtomic m → (s : Store) → Undone s (m s)
IsAtomic-Undone {m} h s = go (m s) refl
  where
    go : (r : Result _ × Store) → m s ≡ r → Undone s r
    go (ok a, t) q = tt
    go (err e, t) q = h.undone s t e q
