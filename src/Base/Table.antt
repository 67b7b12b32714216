-- ===== src/Base/Table.antt =====
-- A table is the list of its rows. A query by a unique column reads or writes the one row that
-- has the value; `updateMany` writes every row that meets its condition.
use rekberkan.Base.Tests.{◌==◌, if◌then◌else◌, Bool-cases}
use rekberkan.Base.Int.{ℤ, ◌+ℤ◌, 0ℤ, int_laws}
use Prim.Native.Nat.{ℕ}
use mathlib.Core.Path.{◌≡◌, refl, subst}
use mathlib.Core.Logic.{inl, inr}
use mathlib.Core.Bool.{Bool, true}
use mathlib.Core.Option
use mathlib.Core.Option.{Option, none, some}
use mathlib.Core.List.{List, [], ◌∷◌, ◌++◌}
use native.Mathlib.Omega.{arith}

module _ {A : Type 0} where
  -- `findFirst`
  abbrev pub find_first : (A → Bool) → List A → Option A
  find_first p [] = none
  find_first p (r ∷ rows) = if p r then some r else find_first p rows

  -- `findUnique`, where `key` is a unique column
  abbrev pub find_by : (A → ℕ) → ℕ → List A → Option A
  find_by key k [] = none
  find_by key k (r ∷ rows) = if key r == k then some r else find_by key k rows

  -- `update` of the row that a unique column names
  abbrev pub update_by : (A → ℕ) → ℕ → (A → A) → List A → List A
  update_by key k f [] = []
  update_by key k f (r ∷ rows) = if key r == k then f r ∷ rows else r ∷ update_by key k f rows

  -- `findMany`
  abbrev pub filter_rows : (A → Bool) → List A → List A
  filter_rows p [] = []
  filter_rows p (r ∷ rows) = if p r then r ∷ filter_rows p rows else filter_rows p rows

  -- `updateMany`
  abbrev pub update_all : (A → Bool) → (A → A) → List A → List A
  update_all p f [] = []
  update_all p f (r ∷ rows) = (if p r then f r else r) ∷ update_all p f rows

  abbrev pub sum_rows : (A → ℤ) → List A → ℤ
  sum_rows v [] = 0ℤ
  sum_rows v (r ∷ rows) = v r +ℤ sum_rows v rows

  abbrev pub All {κ} : (A → Type κ) → List A → Type κ
  All P [] = Unit
  All P (r ∷ rows) = P r × All P rows

  pub find_by-key :
      (key : A → ℕ) (k : ℕ) (r : A) (rows : List A) → find_by key k rows ≡ some r → key r ≡ k
  find_by-key key k r [] h = cc
  find_by-key key k r (x ∷ rows) h = ground (arith, find_by-key key k r rows)

  pub find_by-update_by :
      (key : A → ℕ) (j k : ℕ) (f : A → A) (rows : List A)
      → ((r : A) → key (f r) ≡ key r)
      → find_by key j (update_by key k f rows)
        ≡ (if k == j then Option.map f (find_by key j rows) else find_by key j rows)
  find_by-update_by key j k f [] h = ground arith
  find_by-update_by key j k f (x ∷ rows) h = ground (arith, h x, find_by-update_by key j k f rows h)

  pub find_by-append :
      (key : A → ℕ) (k : ℕ) (xs ys : List A)
      → find_by key k (xs ++ ys)
        ≡ elim (find_by key k xs) [ none ↦ find_by key k ys | some r ↦ some r ]
  find_by-append key k [] ys = refl
  find_by-append key k (x ∷ xs) ys = ground (arith, find_by-append key k xs ys)

  find_by-head :
      (key : A → ℕ) (k : ℕ) (x r : A) (rows : List A)
      → (key x == k) ≡ true
      → find_by key k (x ∷ rows) ≡ some r
      → x ≡ r
  find_by-head key k x r rows e h = ground arith

  pub find_by-All {κ} :
      (P : A → Type κ) (key : A → ℕ) (k : ℕ) (r : A) (rows : List A)
      → All P rows
      → find_by key k rows ≡ some r
      → P r
  find_by-All P key k r [] a h = cc
  find_by-All P key k r (x ∷ rows) a h = elim (Bool-cases (key x == k)) [
    | inl e ↦ subst P (find_by-head key k x r rows e h) a.0
    | inr e ↦ find_by-All P key k r rows a.1 (rw e at h)
  ]

  pub All-update_by {κ} :
      (P : A → Type κ) (key : A → ℕ) (k : ℕ) (f : A → A) (rows : List A)
      → All P rows
      → ((r : A) → find_by key k rows ≡ some r → P r → P (f r))
      → All P (update_by key k f rows)
  All-update_by P key k f [] a h = tt
  All-update_by P key k f (x ∷ rows) a h = elim (Bool-cases (key x == k)) [
    | inl e ↦ rw e (h x (rw e) a.0, a.1)
    | inr e ↦ rw e (a.0, All-update_by P key k f rows a.1 (λ r g. h r (rw e g)))
  ]

  pub All-append {κ} : (P : A → Type κ) (xs ys : List A) → All P xs → All P ys → All P (xs ++ ys)
  All-append P [] ys a b = b
  All-append P (x ∷ xs) ys a b = (a.0, All-append P xs ys a.1 b)

  -- A write to one row moves the sum of a column by what the row's value moves.
  pub sum_rows-update_by :
      (v : A → ℤ) (key : A → ℕ) (k : ℕ) (f : A → A) (r : A) (rows : List A)
      → find_by key k rows ≡ some r
      → sum_rows v (update_by key k f rows) +ℤ v r ≡ sum_rows v rows +ℤ v (f r)
  sum_rows-update_by v key k f r [] h = cc
  sum_rows-update_by v key k f r (x ∷ rows) h =
      grind (int_laws, sum_rows-update_by v key k f r rows)

  pub sum_rows-append :
      (v : A → ℤ) (xs ys : List A) → sum_rows v (xs ++ ys) ≡ sum_rows v xs +ℤ sum_rows v ys
  sum_rows-append v [] ys = omega int_laws
  sum_rows-append v (x ∷ xs) ys = rw (sum_rows-append v xs ys) (omega int_laws)
