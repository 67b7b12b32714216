-- ===== src/Ledger/Balanced.antt =====
-- The double-entry invariant of the ledger (kahade-backend/src/core/ledger/ledger.service.ts): every
-- journal sums to zero.
use rekberkan.Base.{
  ℕ, suc, ◌+◌, ◌⊎◌, ◌≡◌, ◌≢◌, true, refl, ◌∙◌, Option, none, some, List, [], ◌∷◌, ◌++◌, map, arith,
  Option-cases, Bool-cases, inl, inr,
}
use rekberkan.Base.Int.{ℤ, ◌+ℤ◌, 0ℤ, int_laws, eqb_ℤ, eqb_ℤ→eq, eq→eqb_ℤ}
use rekberkan.Base.Table.{sum_rows, All, All-append, update_by, find_first}
use rekberkan.Store.{Store, LedgerEntry, LedgerJournal, ok, err, Error}
use rekberkan.Ledger.Journal.{
  input_count, LedgerEntryInput, CreateJournalOptions, reduce_inputs, reduce_entries, find_by_key,
  new_entries, new_journal, insert_journal, set_running, store_running, update_running_balances,
  write_journal, create_journal, clashes, refers,
}

-- What a journal's entries sum to.
abbrev pub journal_sum : LedgerJournal → ℤ
journal_sum j = sum_rows LedgerEntry.amount_minor j.entries

abbrev pub IsZeroSum : LedgerJournal → Type 0
IsZeroSum j = journal_sum j ≡ 0ℤ

-- Every journal in the tables sums to zero.
abbrev pub IsBalanced : Store → Type 0
IsBalanced s = All IsZeroSum s.journals

abbrev pub input_sum : List LedgerEntryInput → ℤ
input_sum es = sum_rows LedgerEntryInput.amount_minor es

reduce_inputs-eq-sum :
    (acc : ℤ) (es : List LedgerEntryInput) → reduce_inputs acc es ≡ acc +ℤ input_sum es
unfolding reduce_inputs
reduce_inputs-eq-sum acc [] = omega int_laws
reduce_inputs-eq-sum acc (e ∷ es) =
    reduce_inputs-eq-sum (acc +ℤ e.amount_minor) es ∙ (omega int_laws)

pub reduce_entries-eq-sum :
    (acc : ℤ) (es : List LedgerEntry)
    → reduce_entries acc es ≡ acc +ℤ sum_rows LedgerEntry.amount_minor es
unfolding reduce_entries
reduce_entries-eq-sum acc [] = omega int_laws
reduce_entries-eq-sum acc (e ∷ es) =
    reduce_entries-eq-sum (acc +ℤ e.amount_minor) es ∙ (omega int_laws)

-- Rows keep their amounts from the request to the tables.
new_entries-sum :
    (now id : ℕ) (es : List LedgerEntryInput)
    → sum_rows LedgerEntry.amount_minor (new_entries now id es) ≡ input_sum es
unfolding new_entries
new_entries-sum now id [] = refl
new_entries-sum now id (e ∷ es) = rw (new_entries-sum now (suc id) es)

pub update_by-sum :
    (v : LedgerEntry → ℤ) (id : ℕ) (f : LedgerEntry → LedgerEntry) (es : List LedgerEntry)
    → ((e : LedgerEntry) → v (f e) ≡ v e)
    → sum_rows v (update_by LedgerEntry.id id f es) ≡ sum_rows v es
update_by-sum v id f [] h = refl
update_by-sum v id f (e ∷ es) h = ground (arith, h e, update_by-sum v id f es h)

set_running-IsBalanced :
    (id : ℕ) (balance : ℤ) (js : List LedgerJournal)
    → All IsZeroSum js
    → All IsZeroSum (map (set_running id balance) js)
set_running-IsBalanced id balance [] h = tt
set_running-IsBalanced id balance (j ∷ js) h = (
  update_by-sum LedgerEntry.amount_minor id _ j.entries (λ e. refl) ∙ h.0,
  set_running-IsBalanced id balance js h.1,
)

store_running-IsBalanced :
    (id : ℕ) (b : Option ℤ) (s : Store) → IsBalanced s → IsBalanced (store_running id b s)
unfolding store_running
store_running-IsBalanced id none s h = h
store_running-IsBalanced id (some b) s h = set_running-IsBalanced id b s.journals h

update_running_balances-IsBalanced :
    (es : List LedgerEntry) (s : Store) → IsBalanced s → IsBalanced (update_running_balances es s)
unfolding update_running_balances
update_running_balances-IsBalanced [] s h = h
update_running_balances-IsBalanced (e ∷ es) s h =
    update_running_balances-IsBalanced es _ (store_running-IsBalanced e.id _ s h)

-- The tables with the new journal in them.
abbrev pub with_journal : ℕ → CreateJournalOptions → Store → Store
with_journal now o s = record s {
  journals = s.journals ++ new_journal now s.next_id o ∷ [];
  next_id = suc s.next_id + input_count o.entries;
}

insert_journal-cases :
    (now : ℕ) (o : CreateJournalOptions) (s : Store)
    → ((e : Error) × (insert_journal now o s ≡ (err e, s)))
      ⊎ (insert_journal now o s ≡ (ok (new_journal now s.next_id o), with_journal now o s))
unfolding insert_journal
insert_journal-cases now o s = elim (Bool-cases (refers o s)) [
  | inl r ↦ elim (Option-cases (find_first (clashes o) s.journals)) [
    | inl e ↦ inr (ground arith)
    | inr (j, e) ↦ inl (Error.unique_violation, ground arith)
  ]
  | inr r ↦ inl (Error.foreign_key_violation, ground arith)
]

with_journal-IsBalanced :
    (now : ℕ) (o : CreateJournalOptions) (s : Store)
    → input_sum o.entries ≡ 0ℤ
    → IsBalanced s
    → IsBalanced (with_journal now o s)
with_journal-IsBalanced now o s z h =
    All-append IsZeroSum s.journals _ h (new_entries-sum now (suc s.next_id) o.entries ∙ z, tt)

posted_zero :
    (now id : ℕ) (es : List LedgerEntryInput)
    → input_sum es ≡ 0ℤ
    → reduce_entries 0ℤ (new_entries now id es) ≡ 0ℤ
posted_zero now id es z =
    reduce_entries-eq-sum 0ℤ (new_entries now id es)
    ∙ (rw (new_entries-sum now id es ∙ z) (omega int_laws))

pub reduce-input_sum : (es : List LedgerEntryInput) → reduce_inputs 0ℤ es ≡ input_sum es
reduce-input_sum es = reduce_inputs-eq-sum 0ℤ es ∙ (omega int_laws)

-- With no clash in a unique column and every row there that it names, the write goes through.
pub write_journal_new :
    (now : ℕ) (o : CreateJournalOptions) (s : Store)
    → input_sum o.entries ≡ 0ℤ
    → find_first (clashes o) s.journals ≡ none
    → refers o s ≡ true
    → write_journal now o s ≡ (
      ok (new_journal now s.next_id o),
      update_running_balances (new_entries now (suc s.next_id) o.entries) (with_journal now o s),
    )
unfolding write_journal insert_journal
write_journal_new now o s z f r = ground (arith, posted_zero now (suc s.next_id) o.entries z)

-- What the write of a journal leads to: a refusal by the database, or the journal with the running
-- balances of its accounts; the check after the write passes if the entries sum to zero.
write_journal-cases :
    (now : ℕ) (o : CreateJournalOptions) (s : Store)
    → input_sum o.entries ≡ 0ℤ
    → ((e : Error) × (write_journal now o s ≡ (err e, s)))
      ⊎ (write_journal now o s ≡ (
        ok (new_journal now s.next_id o),
        update_running_balances (new_entries now (suc s.next_id) o.entries) (with_journal now o s),
      ))
unfolding write_journal
write_journal-cases now o s z = elim (insert_journal-cases now o s) [
  | inl (x, e) ↦ inl (x, rw e refl)
  | inr e ↦ inr (ground (arith, posted_zero now (suc s.next_id) o.entries z))
]

-- A request is refused when its entries do not sum to zero, before anything is read or written.
pub create_journal_unbalanced :
    (now : ℕ) (o : CreateJournalOptions) (s : Store)
    → input_sum o.entries ≢ 0ℤ
    → create_journal now o s ≡ (err (Error.ledger_invariant (input_sum o.entries)), s)
unfolding create_journal
create_journal_unbalanced now o s z = elim (Bool-cases (eqb_ℤ (input_sum o.entries) 0ℤ)) [
  | inl e ↦ absurd (z (eqb_ℤ→eq _ _ e))
  | inr e ↦ rw (reduce-input_sum o.entries) (ground arith)
]

-- A journal that is created sums to zero, and so the ledger keeps its invariant, however the call
-- of `createJournal` ends.
pub create_journal-IsBalanced :
    (now : ℕ) (o : CreateJournalOptions) (s : Store)
    → IsBalanced s
    → IsBalanced (create_journal now o s).1
unfolding create_journal
create_journal-IsBalanced now o s h = elim (Bool-cases (eqb_ℤ (input_sum o.entries) 0ℤ)) [
  | inr e ↦ rw (create_journal_unbalanced now o s (λ z. cc (eq→eqb_ℤ _ _ z))) h
  | inl e ↦ elim (Option-cases (find_by_key o.idempotency_key s)) [
    | inr (j, f) ↦ ground (arith, reduce-input_sum o.entries)
    | inl f ↦ elim (write_journal-cases now o s (eqb_ℤ→eq _ _ e)) [
      | inl (x, w) ↦ ground (arith, reduce-input_sum o.entries)
      | inr w ↦ ground (
        arith,
        reduce-input_sum o.entries,
        update_running_balances-IsBalanced (new_entries now (suc s.next_id) o.entries)
            (with_journal now o s) (with_journal-IsBalanced now o s (eqb_ℤ→eq _ _ e) h),
      )
    ]
  ]
]

-- A second request with the key of a journal that is there returns that journal and writes nothing.
pub create_journal_again :
    (now : ℕ) (o : CreateJournalOptions) (j : LedgerJournal) (s : Store)
    → input_sum o.entries ≡ 0ℤ
    → find_by_key o.idempotency_key s ≡ some j
    → create_journal now o s ≡ (ok j, s)
unfolding create_journal
create_journal_again now o j s z e = ground (arith, reduce-input_sum o.entries)
