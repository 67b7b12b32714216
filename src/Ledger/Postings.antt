-- ===== src/Ledger/Postings.antt =====
-- What the postings of kahade-backend/src/core/ledger/ledger.service.ts do to the balances of the
-- ledger accounts.
use rekberkan.Base.{
  true, ℕ, suc, ◌⊎◌, ◌≡◌, refl, sym, ◌∙◌, Option, none, some, List, [], ◌∷◌, ◌++◌, map, arith, ap,
  Bool-cases, inl, inr, ◌==◌, ◌↔◌, if◌then◌else◌,
}
use rekberkan.Base.Int.{ℤ, ◌+ℤ◌, neg, 0ℤ, int_laws, ◌≤ℤ◌, ltb_ℤ, pos_part, neg_part, pos, negsuc}
use rekberkan.Base.Table.{sum_rows, sum_rows-append, filter_rows, find_first}
use rekberkan.Store.{Store, LedgerEntry, LedgerJournal, ok}
use rekberkan.Ledger.Journal.{
  LedgerEntryInput, CreateJournalOptions, find_by_key, new_entries, new_journal, set_running,
  store_running, update_running_balances, create_journal, entries_of, clashes, refers,
}
use rekberkan.Ledger.Records.{
  push_if_positive, deposit_options, withdrawal_options, escrow_hold_options,
  escrow_release_options, escrow_refund_options, dispute_options,
}
use rekberkan.Ledger.Accounts.{get_account_balance}
use rekberkan.Ledger.Balanced.{
  input_sum, with_journal, reduce-input_sum, write_journal_new, update_by-sum,
}

-- What a request posts to an account.
abbrev pub posted : ℕ → List LedgerEntryInput → ℤ
posted a es = sum_rows (λ i. if i.account_id == a then i.amount_minor else 0ℤ) es

-- The same of an entry that has been written.
abbrev share : ℕ → LedgerEntry → ℤ
share a e = if e.account_id == a then e.amount_minor else 0ℤ

abbrev balance_of : ℕ → List LedgerJournal → ℤ
balance_of a js = sum_rows (λ j. sum_rows (share a) j.entries) js

sum-filter :
    (a : ℕ) (es : List LedgerEntry)
    → sum_rows LedgerEntry.amount_minor (filter_rows (λ e. e.account_id == a) es)
      ≡ sum_rows (share a) es
sum-filter a [] = refl
sum-filter a (e ∷ es) = elim (Bool-cases (e.account_id == a)) [
  | inl q ↦ rw q (rw (sum-filter a es) refl)
  | inr q ↦ rw q (sum-filter a es ∙ (omega int_laws))
]

sum-entries_of :
    (a : ℕ) (js : List LedgerJournal) → sum_rows (share a) (entries_of js) ≡ balance_of a js
sum-entries_of a [] = refl
sum-entries_of a (j ∷ js) =
    sum_rows-append (share a) j.entries (entries_of js) ∙ (rw (sum-entries_of a js) refl)

get_account_balance-eq : (a : ℕ) (s : Store) → get_account_balance a s ≡ balance_of a s.journals
unfolding get_account_balance
get_account_balance-eq a s = sum-filter a (entries_of s.journals) ∙ sum-entries_of a s.journals

set_running-balance :
    (a id : ℕ) (b : ℤ) (js : List LedgerJournal)
    → balance_of a (map (set_running id b) js) ≡ balance_of a js
set_running-balance a id b [] = refl
set_running-balance a id b (j ∷ js) =
    rw
      (update_by-sum (share a) id (λ e. record e { running_balance_minor = some b }) j.entries
        (λ e. refl))
      (rw (set_running-balance a id b js) refl)

store_running-balance :
    (a id : ℕ) (b : Option ℤ) (s : Store)
    → balance_of a (store_running id b s).journals ≡ balance_of a s.journals
unfolding store_running
store_running-balance a id none s = refl
store_running-balance a id (some b) s = set_running-balance a id b s.journals

-- Running balances are a cache: writing them changes no account's balance.
update_running_balances-balance :
    (a : ℕ) (es : List LedgerEntry) (s : Store)
    → balance_of a (update_running_balances es s).journals ≡ balance_of a s.journals
unfolding update_running_balances
update_running_balances-balance a [] s = refl
update_running_balances-balance a (e ∷ es) s =
    update_running_balances-balance a es _ ∙ store_running-balance a e.id _ s

new_entries-share :
    (a now id : ℕ) (es : List LedgerEntryInput)
    → sum_rows (share a) (new_entries now id es) ≡ posted a es
unfolding new_entries
new_entries-share a now id [] = refl
new_entries-share a now id (e ∷ es) = rw (new_entries-share a now (suc id) es) refl

with_journal-balance :
    (a now : ℕ) (o : CreateJournalOptions) (s : Store)
    → balance_of a (with_journal now o s).journals ≡ balance_of a s.journals +ℤ posted a o.entries
with_journal-balance a now o s =
    sum_rows-append (λ j. sum_rows (share a) j.entries) s.journals _
    ∙ (rw (new_entries-share a now (suc s.next_id) o.entries) (omega int_laws))

-- The call writes the journal, and every account's balance moves by what is posted to it.
abbrev pub Posts : ℕ → CreateJournalOptions → Store → Type 0
Posts now o s =
    (t : Store) × (create_journal now o s ≡ (ok (new_journal now s.next_id o), t))
    × ((a : ℕ) → get_account_balance a t ≡ get_account_balance a s +ℤ posted a o.entries)

-- A request whose entries sum to zero, under a key and with unique links that no journal has, and whose
-- accounts and linked rows are there, is written, and each account's balance moves by what the request
-- posts to it.
pub create_journal-Posts :
    (now : ℕ) (o : CreateJournalOptions) (s : Store)
    → input_sum o.entries ≡ 0ℤ
    → find_by_key o.idempotency_key s ≡ none
    → find_first (clashes o) s.journals ≡ none
    → refers o s ≡ true
    → Posts now o s
unfolding create_journal
create_journal-Posts now o s z e f r =
    let t =
      update_running_balances (new_entries now (suc s.next_id) o.entries) (with_journal now o s) in
    (
      t,
      ground (arith, reduce-input_sum o.entries, write_journal_new now o s z f r),
      λ a.
          get_account_balance-eq a t
          ∙ update_running_balances-balance a (new_entries now (suc s.next_id) o.entries)
              (with_journal now o s)
          ∙ with_journal-balance a now o s
          ∙ (rw (get_account_balance-eq a s) refl),
    )

-- The requests of `recordDeposit`, `recordWithdrawal`, `recordEscrowHold`, `recordEscrowRelease` and
-- `recordEscrowRefund` sum to zero for all amounts and fees, so the check of `createJournal` never
-- refuses one.
pub record-options_balanced :
    (a b c : ℕ) (amount fee : ℤ) (escrow order key : ℕ)
    → (input_sum (deposit_options a b amount escrow key).entries ≡ 0ℤ)
      × (input_sum (withdrawal_options a b amount escrow key).entries ≡ 0ℤ)
      × (input_sum (escrow_hold_options a b amount escrow order key).entries ≡ 0ℤ)
      × (input_sum (escrow_release_options a b c amount fee escrow order key).entries ≡ 0ℤ)
      × (input_sum (escrow_refund_options a b amount escrow order key).entries ≡ 0ℤ)
unfolding deposit_options withdrawal_options escrow_hold_options escrow_release_options
    escrow_refund_options
record-options_balanced a b c amount fee escrow order key =
    (omega int_laws, omega int_laws, omega int_laws, omega int_laws, omega int_laws)

one_part : (m : ℤ) → (pos_part m ≡ 0) ⊎ (neg_part m ≡ 0)
one_part (pos n) = inr refl
one_part (negsuc n) = inl refl

-- What is pushed for a part: the part, if it is positive.
gain : ℤ → ℤ
gain m = if ltb_ℤ 0ℤ m then m else 0ℤ

gain_parts : (m : ℤ) → (pos_part (gain m) ≡ pos_part m) × (neg_part (gain m) ≡ 0)
unfolding gain
gain_parts m = (ground arith, ground arith)

input_sum-append :
    (xs ys : List LedgerEntryInput) → input_sum (xs ++ ys) ≡ input_sum xs +ℤ input_sum ys
input_sum-append xs ys = sum_rows-append LedgerEntryInput.amount_minor xs ys

push-sum : (a : ℕ) (m : ℤ) → input_sum (push_if_positive a m) ≡ gain m
unfolding gain
push-sum a m = elim (Bool-cases (ltb_ℤ 0ℤ m)) [ inl e ↦ rw e (omega int_laws) | inr e ↦ rw e refl ]

dispute_options-sum :
    (a b c d : ℕ) (refund seller fee : ℤ) (dispute order key : ℕ)
    → input_sum (dispute_options a b c d refund seller fee dispute order key).entries
      ≡ neg (refund +ℤ seller +ℤ fee) +ℤ (gain refund +ℤ (gain seller +ℤ gain fee))
unfolding dispute_options
dispute_options-sum a b c d refund seller fee dispute order key = rw (
  input_sum-append (push_if_positive b refund) _,
  input_sum-append (push_if_positive c seller) _,
  push-sum b refund,
  push-sum c seller,
  push-sum d fee,
)

-- The request of `recordDisputeResolution` sums to zero exactly when no part is negative: a negative
-- part counts in the amount taken from escrow, and is not posted.
pub dispute_options_balanced :
    (a b c d : ℕ) (refund seller fee : ℤ) (dispute order key : ℕ)
    → (input_sum (dispute_options a b c d refund seller fee dispute order key).entries ≡ 0ℤ)
      ↔ ((0ℤ ≤ℤ refund) × (0ℤ ≤ℤ seller) × (0ℤ ≤ℤ fee))
dispute_options_balanced a b c d refund seller fee dispute order key = (
  λ h.
      let q = sym (dispute_options-sum a b c d refund seller fee dispute order key) ∙ h in
      let z = ap pos_part q in
      omega (int_laws, z, ap neg_part q, gain_parts refund, gain_parts seller, gain_parts fee),
  λ h.
      dispute_options-sum a b c d refund seller fee dispute order key
      ∙ (omega (
        int_laws,
        gain_parts refund,
        gain_parts seller,
        gain_parts fee,
        one_part refund,
        one_part seller,
        one_part fee,
      )),
)
