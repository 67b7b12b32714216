-- ===== src/Escrow/Frame.antt =====
-- What the parts of a release and a refund
-- (kahade-backend/src/core/escrow/escrow.service.ts) leave alone: the postings touch no wallet,
-- escrow or order, and the moves of money no escrow or order.
use rekberkan.Base.{ℕ, ◌≡◌, refl, Option, none, some, List, [], ◌∷◌, arith}
use rekberkan.Base.Int.{ℤ, 0ℤ}
use rekberkan.Store.{
  Store, Wallet, LedgerEntry, LedgerAccountType, Currency, EscrowHold, Action, modify,
}
use rekberkan.Store.Rules.{
  Preserves, IsReadOnly, reads, Preserves->>=, Preserves->>, IsReadOnly-Preserves, modify-Preserves,
  Preserves-existing_or, Preserves-if,
}
use rekberkan.Wallet.Rows.{update_wallet}
use rekberkan.Wallet.Moves.{unlock_balance, transfer_locked_balance, create_wallet, insert_wallet}
use rekberkan.Ledger.Journal.{
  CreateJournalOptions, create_journal, write_journal, insert_journal, update_running_balances,
  update_running_balance, store_running, running_at, account_entries,
}
use rekberkan.Ledger.Accounts.{get_or_create_user_account, get_or_create_platform_account}
use rekberkan.Ledger.Records.{record_escrow_hold, record_escrow_release, record_escrow_refund}
use rekberkan.Escrow.Rows.{update_wallet_id}
use rekberkan.Escrow.Create.{CreateEscrowOptions, post_hold}
use rekberkan.Escrow.Settle.{deduct_fee, post_release, post_refund}

-- Two states with the same escrows and orders, and with the same wallets too.
abbrev pub SameDeals : Store → Store → Type 0
SameDeals s t = (t.escrows ≡ s.escrows) × (t.orders ≡ s.orders)

abbrev pub SameRows : Store → Store → Type 0
SameRows s t = (t.wallets ≡ s.wallets) × SameDeals s t

store_running-SameRows :
    (s : Store) (entry : ℕ) (b : Option ℤ) (t : Store)
    → SameRows s t
    → SameRows s (store_running entry b t)
unfolding store_running
store_running-SameRows s entry none t h = h
store_running-SameRows s entry (some b) t h = h

running-SameRows :
    (s : Store) (es : List LedgerEntry) (t : Store)
    → SameRows s t
    → SameRows s (update_running_balances es t)
unfolding update_running_balances update_running_balance
running-SameRows s [] t h = h
running-SameRows s (e ∷ es) t h =
    running-SameRows s es (update_running_balance e.account_id e.id t)
      (store_running-SameRows s e.id (running_at e.id 0ℤ (account_entries e.account_id t)) t h)

insert_journal-rows :
    (s : Store) (now : ℕ) (o : CreateJournalOptions) → Preserves (SameRows s) (insert_journal now o)
unfolding insert_journal
insert_journal-rows s now o = record { holds = λ t h. ground arith }

reads-keep : {A : Type 0} {P : Store → Type 0} {m : Action A} → IsReadOnly m → Preserves P m
reads-keep {P} h = IsReadOnly-Preserves P h

ruleset keeps = (Preserves->>=, Preserves->>, Preserves-existing_or, Preserves-if, reads-keep)

running-rows :
    (s : Store) (es : List LedgerEntry)
    → Preserves (SameRows s) (modify (update_running_balances es))
running-rows s es = modify-Preserves (update_running_balances es) (λ t h. running-SameRows s es t h)

create_journal-rows :
    (s : Store) (now : ℕ) (o : CreateJournalOptions) → Preserves (SameRows s) (create_journal now o)
unfolding create_journal write_journal
create_journal-rows s now o = search (reads, keeps, insert_journal-rows, running-rows) depth 20

user_account-rows :
    (s : Store) (w : ℕ) (t : LedgerAccountType) (c : Currency)
    → Preserves (SameRows s) (get_or_create_user_account w t c)
unfolding get_or_create_user_account
user_account-rows s w t c = record { holds = λ u h. ground arith }

platform_account-rows :
    (s : Store) (k : ℕ) (t : LedgerAccountType) (c : Currency)
    → Preserves (SameRows s) (get_or_create_platform_account k t c)
unfolding get_or_create_platform_account
platform_account-rows s k t c = record { holds = λ u h. ground arith }

ruleset posting_rows = (create_journal-rows, user_account-rows, platform_account-rows)

post_release-rows :
    (s : Store) (now : ℕ) (e : EscrowHold) (w : Wallet) (fee : ℤ) (key : ℕ)
    → Preserves (SameRows s) (post_release now e w fee key)
unfolding post_release record_escrow_release
post_release-rows s now e w fee key = search (reads, keeps, posting_rows) depth 20

post_refund-rows :
    (s : Store) (now : ℕ) (e : EscrowHold) (w : Wallet) (key : ℕ)
    → Preserves (SameRows s) (post_refund now e w key)
unfolding post_refund record_escrow_refund
post_refund-rows s now e w key = search (reads, keeps, posting_rows) depth 20

post_hold-rows :
    (s : Store) (now : ℕ) (w : Wallet) (e : EscrowHold) (o : CreateEscrowOptions)
    → Preserves (SameRows s) (post_hold now w e o)
unfolding post_hold record_escrow_hold
post_hold-rows s now w e o = search (reads, keeps, posting_rows) depth 20

-- The postings of a hold, those of a release, and those of a refund, write no wallet, escrow or order.
pub post_release-SameRows :
    (now : ℕ) (e : EscrowHold) (w : Wallet) (fee : ℤ) (key : ℕ) (s : Store)
    → SameRows s (post_release now e w fee key s).1
post_release-SameRows now e w fee key s =
    (post_release-rows s now e w fee key).holds s (refl, (refl, refl))

pub post_refund-SameRows :
    (now : ℕ) (e : EscrowHold) (w : Wallet) (key : ℕ) (s : Store)
    → SameRows s (post_refund now e w key s).1
post_refund-SameRows now e w key s = (post_refund-rows s now e w key).holds s (refl, (refl, refl))

pub post_hold-SameRows :
    (now : ℕ) (w : Wallet) (e : EscrowHold) (o : CreateEscrowOptions) (s : Store)
    → SameRows s (post_hold now w e o s).1
post_hold-SameRows now w e o s = (post_hold-rows s now w e o).holds s (refl, (refl, refl))

create_wallet-deals :
    (s : Store) (u : ℕ) (c : Currency) → Preserves (SameDeals s) (create_wallet u c)
unfolding create_wallet insert_wallet
create_wallet-deals s u c = record { holds = λ t h. ground arith }

update_wallet-deals :
    (s : Store) (u : ℕ) (f : Wallet → Wallet) → Preserves (SameDeals s) (update_wallet u f)
unfolding update_wallet
update_wallet-deals s u f = record { holds = λ t h. ground arith }

transfer-deals :
    (s : Store) (u v : ℕ) (a : ℤ) → Preserves (SameDeals s) (transfer_locked_balance u v a)
unfolding transfer_locked_balance
transfer-deals s u v a = search (reads, keeps, create_wallet-deals, update_wallet-deals) depth 20

-- A move of locked money writes no escrow or order; nor does the fee, or an unlock.
pub transfer_locked_balance-SameDeals :
    (u v : ℕ) (a : ℤ) (s : Store) → SameDeals s (transfer_locked_balance u v a s).1
transfer_locked_balance-SameDeals u v a s = (transfer-deals s u v a).holds s (refl, refl)

pub deduct_fee-SameDeals : (w : ℕ) (fee : ℤ) (s : Store) → SameDeals s (deduct_fee w fee s).1
unfolding deduct_fee update_wallet_id
deduct_fee-SameDeals w fee s = ground arith

pub unlock_balance-SameDeals : (u : ℕ) (a : ℤ) (s : Store) → SameDeals s (unlock_balance u a s).1
unfolding unlock_balance
unlock_balance-SameDeals u a s = ground arith
