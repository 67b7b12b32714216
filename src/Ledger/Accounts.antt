-- ===== src/Ledger/Accounts.antt =====
-- The ledger accounts and the queries and integrity checks of `LedgerService`
-- (kahade-backend/src/core/ledger/ledger.service.ts).
use rekberkan.Base.{
  ℕ, ◌+◌, Bool, true, false, none, some, List, [], ◌∷◌, ◌++◌, if◌then◌else◌, ◌==◌, ◌&&◌, is_id,
  is_some, length,
}
use rekberkan.Base.Int.{ℤ, ◌+ℤ◌, 0ℤ, eqb_ℤ}
use rekberkan.Base.Table.{find_first, filter_rows, sum_rows}
use rekberkan.Store.{
  Store, Currency, idr, usd, LedgerAccount, LedgerAccountType, LedgerEntry, LedgerJournal, Action,
  ok, ◌>>=◌, existing_or, gets,
}
use rekberkan.Ledger.Journal.{entries_of, reduce_entries}

abbrev pub same_currency : Currency → Currency → Bool
same_currency idr idr = true
same_currency usd usd = true
same_currency _ _ = false

abbrev pub type_code : LedgerAccountType → ℕ
type_code LedgerAccountType.asset = 0
type_code LedgerAccountType.liability = 1
type_code LedgerAccountType.equity = 2
type_code LedgerAccountType.revenue = 3
type_code LedgerAccountType.expense = 4

abbrev pub same_type : LedgerAccountType → LedgerAccountType → Bool
same_type a b = type_code a == type_code b

-- The `where` of the two look-ups.
abbrev pub is_user_account : ℕ → LedgerAccountType → Currency → LedgerAccount → Bool
is_user_account wallet type currency a =
    is_id a.wallet_id wallet && (same_type a.type type && same_currency a.currency currency)

abbrev pub is_platform_account : ℕ → LedgerAccountType → Currency → LedgerAccount → Bool
is_platform_account key type currency a =
    is_id a.platform_key key && (same_type a.type type && same_currency a.currency currency)

unfoldable pub insert_account : (ℕ → LedgerAccount) → Action LedgerAccount
insert_account row s = (
  ok (row s.next_id),
  record s { accounts = s.accounts ++ row s.next_id ∷ []; next_id = s.next_id + 1 },
)

-- `getOrCreateUserAccount`
unfoldable pub get_or_create_user_account : ℕ → LedgerAccountType → Currency → Action LedgerAccount
unfolding insert_account
get_or_create_user_account wallet type currency = do
  existing ← gets (λ s. find_first (is_user_account wallet type currency) s.accounts)
  existing_or existing (
      insert_account (λ id. record {
        id = id;
        wallet_id = some wallet;
        platform_key = none;
        type = type;
        currency = currency;
      }))

-- `getOrCreatePlatformAccount`
unfoldable pub get_or_create_platform_account :
    ℕ → LedgerAccountType → Currency → Action LedgerAccount
unfolding insert_account
get_or_create_platform_account key type currency = do
  existing ← gets (λ s. find_first (is_platform_account key type currency) s.accounts)
  existing_or existing (
      insert_account (λ id. record {
        id = id;
        wallet_id = none;
        platform_key = some key;
        type = type;
        currency = currency;
      }))

-- `getAccountBalance`: the sum that the database aggregates, 0 where there is no entry
unfoldable pub get_account_balance : ℕ → Store → ℤ
get_account_balance account s =
    sum_rows LedgerEntry.amount_minor
      (filter_rows (λ e. e.account_id == account) (entries_of s.journals))

-- The loop of `verifyAllJournalsBalanced`
unfoldable pub unbalanced_journals : List LedgerJournal → List ℕ
unbalanced_journals [] = []
unbalanced_journals (j ∷ js) =
    let rest = unbalanced_journals js in
    if eqb_ℤ (reduce_entries 0ℤ j.entries) 0ℤ then rest else j.id ∷ rest

pub record JournalReport : Type 0 where
  pub total_journals : ℕ
  pub unbalanced : List ℕ
  pub is_healthy : Bool

unfoldable pub verify_all_journals_balanced : Store → JournalReport
unfolding unbalanced_journals
verify_all_journals_balanced s = record {
  total_journals = length s.journals;
  unbalanced = unbalanced_journals s.journals;
  is_healthy = length (unbalanced_journals s.journals) == 0;
}

-- The loop of `verifyPlatformBalance`, on the accounts that have a platform key
unfoldable pub platform_total : Store → ℤ → List LedgerAccount → ℤ
platform_total s acc [] = acc
platform_total s acc (a ∷ as_) = platform_total s (acc +ℤ get_account_balance a.id s) as_

abbrev pub is_platform : LedgerAccount → Bool
is_platform a = is_some a.platform_key

-- `verifyPlatformBalance`: the total and whether it is zero
unfoldable pub verify_platform_balance : Store → ℤ × Bool
unfolding platform_total get_account_balance
verify_platform_balance s =
    let total = platform_total s 0ℤ (filter_rows is_platform s.accounts) in (total, eqb_ℤ total 0ℤ)
