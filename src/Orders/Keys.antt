-- ===== src/Orders/Keys.antt =====
-- Rows with distinct identifiers: a row that is found by another column is the one that its
-- identifier finds, as with a primary key.
use rekberkan.Base.{
  ℕ, ◌≡◌, refl, none, some, List, [], ◌∷◌, ◌++◌, ◌==◌, arith, inl, inr, Bool-cases, Option-cases,
}
use rekberkan.Base.Table.{find_by, update_by, find_by-update_by, find_by-append}

module _ {A : Type 0} (id : A → ℕ) where
  abbrev pub Distinct : List A → Type 0
  Distinct [] = Unit {0}
  Distinct (r ∷ rows) = (find_by id (id r) rows ≡ none) × Distinct rows

  pub Distinct-update_by :
      (k : ℕ) (f : A → A) (rows : List A)
      → ((r : A) → id (f r) ≡ id r)
      → Distinct rows
      → Distinct (update_by id k f rows)
  Distinct-update_by k f [] h d = tt
  Distinct-update_by k f (r ∷ rows) h d = ground (
    arith,
    h r,
    Distinct-update_by k f rows h d.1,
    find_by-update_by id (id r) k f rows h,
    find_by-update_by id (id (f r)) k f rows h,
  )

  pub Distinct-append :
      (rows : List A) (r : A)
      → find_by id (id r) rows ≡ none
      → Distinct rows
      → Distinct (rows ++ r ∷ [])
  Distinct-append [] r n d = (refl, tt)
  Distinct-append (x ∷ rows) r n d =
      ground (arith, Distinct-append rows r, find_by-append id (id x) rows (r ∷ []))

  pub found_by_id :
      (key : A → ℕ) (k : ℕ) (r : A) (rows : List A)
      → Distinct rows
      → find_by key k rows ≡ some r
      → find_by id (id r) rows ≡ some r
  found_by_id key k r [] d h = cc
  found_by_id key k r (x ∷ rows) d h = elim (Bool-cases (key x == k)) [
    | inl e ↦ ground arith
    | inr e ↦ ground (arith, found_by_id key k r rows d.1)
  ]

module _ {B : Type 0} (key other : B → ℕ) (j k : ℕ) (f : B → B) where
  absent :
      (rows : List B)
      → ((r : B) → key (f r) ≡ key r)
      → find_by key j rows ≡ none
      → find_by key j (update_by other k f rows) ≡ none
  absent [] h p = refl
  absent (x ∷ rows) h p = ground (arith, h x, absent rows h)

  -- A row that is found after a write was there before it.
  pub was_found :
      (e : B) (rows : List B)
      → ((r : B) → key (f r) ≡ key r)
      → find_by key j (update_by other k f rows) ≡ some e
      → (x : B) × (find_by key j rows ≡ some x)
  was_found e rows h p = elim (Option-cases (find_by key j rows)) [
    | inl n ↦ absurd (cc (absent rows h n))
    | inr x ↦ x
  ]
