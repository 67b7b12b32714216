-- ===== src/Ledger/Journal.antt =====
-- `LedgerService.createJournal` and what it calls
-- (kahade-backend/src/core/ledger/ledger.service.ts): the double-entry check, the idempotency key,
-- the write of a journal with its entries, and the running balances.
use rekberkan.Base.{
  true, is_some, ℕ, suc, ◌+◌, Bool, false, not, Option, none, some, List, [], ◌∷◌, ◌++◌, map,
  if◌then◌else◌, ◌==◌, ltb, ◌&&◌, ◌||◌, is_id,
}
use rekberkan.Base.Int.{ℤ, ◌+ℤ◌, 0ℤ, eqb_ℤ}
use rekberkan.Base.Table.{find_by, find_first, filter_rows, update_by}
use rekberkan.Store.{
  Store, LedgerAccount, Deposit, Withdrawal, Order, EscrowHold, Dispute, LedgerEntry, LedgerJournal,
  JournalType, Action, ok, err, Error, ◌>>=◌, ◌>>◌, pure, raise_if, gets, modify, existing_or,
}

pub record LedgerEntryInput : Type 0 where
  pub account_id : ℕ
  pub amount_minor : ℤ

pub record CreateJournalOptions : Type 0 where
  pub type : JournalType
  pub amount_minor : ℤ
  pub entries : List LedgerEntryInput
  pub idempotency_key : Option ℕ
  pub deposit_id : Option ℕ
  pub withdrawal_id : Option ℕ
  pub order_id : Option ℕ
  pub escrow_hold_id : Option ℕ
  pub dispute_id : Option ℕ
  pub referral_reward_id : Option ℕ
  pub voucher_usage_id : Option ℕ
  pub order_settlement_id : Option ℕ

-- `entries.reduce((acc, entry) => acc + entry.amountMinor, 0n)`, over what is to be written
unfoldable pub reduce_inputs : ℤ → List LedgerEntryInput → ℤ
reduce_inputs acc [] = acc
reduce_inputs acc (e ∷ es) = reduce_inputs (acc +ℤ e.amount_minor) es

-- and over what has been written
unfoldable pub reduce_entries : ℤ → List LedgerEntry → ℤ
reduce_entries acc [] = acc
reduce_entries acc (e ∷ es) = reduce_entries (acc +ℤ e.amount_minor) es

-- `findUnique({ where: { idempotencyKey } })`, made only where a key is given
abbrev pub find_by_key : Option ℕ → Store → Option LedgerJournal
find_by_key none s = none
find_by_key (some k) s = find_first (λ j. is_id j.idempotency_key k) s.journals

-- The rows of `entries: { create: ... }`: their identifiers count up from the given one.
unfoldable pub new_entries : ℕ → ℕ → List LedgerEntryInput → List LedgerEntry
new_entries now id [] = []
new_entries now id (e ∷ es) =
    record {
      id = id;
      account_id = e.account_id;
      amount_minor = e.amount_minor;
      running_balance_minor = none;
      created_at = now;
    }
    ∷ new_entries now (suc id) es

abbrev pub new_journal : ℕ → ℕ → CreateJournalOptions → LedgerJournal
new_journal now id o = record {
  id = id;
  type = o.type;
  amount_minor = o.amount_minor;
  idempotency_key = o.idempotency_key;
  deposit_id = o.deposit_id;
  withdrawal_id = o.withdrawal_id;
  order_id = o.order_id;
  escrow_hold_id = o.escrow_hold_id;
  dispute_id = o.dispute_id;
  referral_reward_id = o.referral_reward_id;
  voucher_usage_id = o.voucher_usage_id;
  order_settlement_id = o.order_settlement_id;
  entries = new_entries now (suc id) o.entries;
}

abbrev shares : Option ℕ → Option ℕ → Bool
shares none b = false
shares (some a) b = is_id b a

-- Whether a journal has a value that the new one also has in a unique column of the schema.
unfoldable pub clashes : CreateJournalOptions → LedgerJournal → Bool
clashes o j =
    shares o.idempotency_key j.idempotency_key
    || (shares o.deposit_id j.deposit_id
        || (shares o.withdrawal_id j.withdrawal_id
            || (shares o.dispute_id j.dispute_id
                || (shares o.referral_reward_id j.referral_reward_id
                    || (shares o.voucher_usage_id j.voucher_usage_id
                        || shares o.order_settlement_id j.order_settlement_id)))))

abbrev pub input_count : List LedgerEntryInput → ℕ
input_count [] = 0
input_count (e ∷ es) = suc (input_count es)

-- The row that a foreign key names, if it names one
abbrev has_row : {A : Type 0} → (A → ℕ) → Option ℕ → List A → Bool
has_row id none rows = true
has_row id (some k) rows = is_some (find_by id k rows)

abbrev has_accounts : List LedgerEntryInput → Store → Bool
has_accounts [] s = true
has_accounts (e ∷ es) s =
    is_some (find_by LedgerAccount.id e.account_id s.accounts) && has_accounts es s

-- Whether the rows are there that the foreign keys of a journal and its entries demand; rewards of
-- referrals, usages of vouchers by their identifiers and settlements of orders are not in the model.
unfoldable pub refers : CreateJournalOptions → Store → Bool
refers o s =
    has_accounts o.entries s
    && (has_row Deposit.id o.deposit_id s.deposits
        && (has_row Withdrawal.id o.withdrawal_id s.withdrawals
            && (has_row Order.id o.order_id s.orders
                && (has_row EscrowHold.id o.escrow_hold_id s.escrows
                    && has_row Dispute.id o.dispute_id s.disputes))))

-- `ledgerJournal.create`
unfoldable pub insert_journal : ℕ → CreateJournalOptions → Action LedgerJournal
insert_journal now o s =
    if not (refers o s)
    then (err Error.foreign_key_violation, s)
    else elim (find_first (clashes o) s.journals) [
      | some _ ↦ (err Error.unique_violation, s)
      | none ↦
          let j = new_journal now s.next_id o in
          (
            ok j,
            record s {
              journals = s.journals ++ j ∷ [];
              next_id = suc s.next_id + input_count o.entries;
            },
          )
    ]

-- `ledgerEntry.findMany` reads the entries of all journals.
abbrev pub entries_of : List LedgerJournal → List LedgerEntry
entries_of [] = []
entries_of (j ∷ js) = j.entries ++ entries_of js

-- `orderBy: [{ createdAt: "asc" }, { id: "asc" }]`
abbrev pub is_before : LedgerEntry → LedgerEntry → Bool
is_before a b = ltb a.created_at b.created_at || (a.created_at == b.created_at && ltb a.id b.id)

unfoldable pub insert_ordered : LedgerEntry → List LedgerEntry → List LedgerEntry
insert_ordered e [] = e ∷ []
insert_ordered e (x ∷ xs) = if is_before e x then e ∷ x ∷ xs else x ∷ insert_ordered e xs

unfoldable pub order_entries : List LedgerEntry → List LedgerEntry
unfolding insert_ordered
order_entries [] = []
order_entries (e ∷ es) = insert_ordered e (order_entries es)

-- The loop of `updateRunningBalance`: the balance after the entry, if the entry is met.
unfoldable pub running_at : ℕ → ℤ → List LedgerEntry → Option ℤ
running_at id acc [] = none
running_at id acc (e ∷ es) =
    let rest = running_at id (acc +ℤ e.amount_minor) es in
    if e.id == id then some (acc +ℤ e.amount_minor) else rest

-- `ledgerEntry.update` of the running balance
abbrev pub set_running : ℕ → ℤ → LedgerJournal → LedgerJournal
set_running id balance j = record j {
  entries =
      update_by LedgerEntry.id id (λ e. record e { running_balance_minor = some balance })
        j.entries;
}

unfoldable pub store_running : ℕ → Option ℤ → Store → Store
store_running entry none s = s
store_running entry (some balance) s = record s {
  journals = map (set_running entry balance) s.journals;
}

-- The entries of an account, in their order.
abbrev pub account_entries : ℕ → Store → List LedgerEntry
account_entries account s =
    order_entries (filter_rows (λ e. e.account_id == account) (entries_of s.journals))

-- `updateRunningBalance`
unfoldable pub update_running_balance : ℕ → ℕ → Store → Store
unfolding running_at order_entries store_running
update_running_balance account entry s =
    store_running entry (running_at entry 0ℤ (account_entries account s)) s

-- Step 4 of `createJournal`
unfoldable pub update_running_balances : List LedgerEntry → Store → Store
unfolding update_running_balance
update_running_balances [] s = s
update_running_balances (e ∷ es) s =
    update_running_balances es (update_running_balance e.account_id e.id s)

-- Steps 3 to 5
unfoldable pub write_journal : ℕ → CreateJournalOptions → Action LedgerJournal
unfolding insert_journal update_running_balances reduce_entries
write_journal now o = do
  journal ← insert_journal now o
  modify (update_running_balances journal.entries)
  raise_if (not (eqb_ℤ (reduce_entries 0ℤ journal.entries) 0ℤ))
      (Error.ledger_invariant (reduce_entries 0ℤ journal.entries))
  pure journal

unfoldable pub create_journal : ℕ → CreateJournalOptions → Action LedgerJournal
unfolding write_journal reduce_inputs
create_journal now o = do
  raise_if (not (eqb_ℤ (reduce_inputs 0ℤ o.entries) 0ℤ))
      (Error.ledger_invariant (reduce_inputs 0ℤ o.entries))
  existing ← gets (find_by_key o.idempotency_key)
  existing_or existing (write_journal now o)
