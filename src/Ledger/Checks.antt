-- ===== src/Ledger/Checks.antt =====
-- The integrity check `verifyAllJournalsBalanced` of
-- kahade-backend/src/core/ledger/ledger.service.ts against the invariant that it is to find broken.
use rekberkan.Base.{◌≡◌, ◌↔◌, refl, true, List, [], ◌∷◌, arith, inl, inr, Bool-cases, length, ◌==◌}
use rekberkan.Base.Int.{0ℤ, eqb_ℤ, eqb_ℤ→eq, eq→eqb_ℤ, int_laws}
use rekberkan.Base.Table.{All}
use rekberkan.Store.{Store, LedgerJournal}
use rekberkan.Ledger.Journal.{reduce_entries}
use rekberkan.Ledger.Accounts.{unbalanced_journals, verify_all_journals_balanced}
use rekberkan.Ledger.Balanced.{IsBalanced, IsZeroSum, journal_sum, reduce_entries-eq-sum}

reduced : (j : LedgerJournal) → reduce_entries 0ℤ j.entries ≡ journal_sum j
reduced j = grind (int_laws, reduce_entries-eq-sum 0ℤ j.entries)

All-of_none :
    (js : List LedgerJournal) → (length (unbalanced_journals js) == 0) ≡ true → All IsZeroSum js
unfolding unbalanced_journals
All-of_none [] h = tt
All-of_none (j ∷ js) h = elim (Bool-cases (eqb_ℤ (reduce_entries 0ℤ j.entries) 0ℤ)) [
  | inl e ↦
      (cc (reduced j, eqb_ℤ→eq (reduce_entries 0ℤ j.entries) 0ℤ e), All-of_none js (ground arith))
  | inr e ↦ absurd (ground arith)
]

none_of_All :
    (js : List LedgerJournal) → All IsZeroSum js → (length (unbalanced_journals js) == 0) ≡ true
unfolding unbalanced_journals
none_of_All [] h = refl
none_of_All (j ∷ js) h =
    ground
      (arith, none_of_All js h.1, eq→eqb_ℤ (reduce_entries 0ℤ j.entries) 0ℤ (cc (reduced j, h.0)))

-- `verifyAllJournalsBalanced` reports a healthy ledger exactly when every journal sums to zero.
pub verify_all_journals_balanced_iff :
    (s : Store) → ((verify_all_journals_balanced s).is_healthy ≡ true) ↔ IsBalanced s
unfolding verify_all_journals_balanced
verify_all_journals_balanced_iff s = (All-of_none s.journals, none_of_All s.journals)
