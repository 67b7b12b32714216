-- ===== src/Escrow/Booked.antt =====
-- What the parts of the operations of kahade-backend/src/core/escrow/escrow.service.ts do to the
-- journals of the ledger.
use rekberkan.Base.{ℕ, ◌≡◌, Option, none, some, arith, sym}
use mathlib.Core.Path.{subst}
use rekberkan.Base.Int.{ℤ}
use rekberkan.Store.{Store, Wallet, LedgerAccountType, Currency, Action, EscrowHold, Order, Error}
use rekberkan.Store.Rules.{
  Preserves, IsReadOnly, reads, Preserves->>=, Preserves->>, IsReadOnly-Preserves,
  in_transaction-Preserves, Preserves-existing_or, Preserves-if,
}
use rekberkan.Wallet.Rows.{update_wallet}
use rekberkan.Wallet.Retry.{alone, lock_attempt, with_retries, lock_balance}
use rekberkan.Wallet.Moves.{unlock_balance, transfer_locked_balance, create_wallet}
use rekberkan.Wallet.Rounds.{with_retries_inv}
use rekberkan.Ledger.Journal.{CreateJournalOptions, create_journal}
use rekberkan.Ledger.Balanced.{IsBalanced, create_journal-IsBalanced, IsZeroSum}
use rekberkan.Ledger.Accounts.{get_or_create_user_account, get_or_create_platform_account}
use rekberkan.Base.Table.{All}
use rekberkan.Escrow.Rows.{update_wallet_id, update_escrow, update_order, insert_escrow}
use rekberkan.Escrow.Settle.{deduct_fee}
use rekberkan.Escrow.Dispute.{insert_dispute, seller_account_or, pay_seller}

-- A call that leaves the journals alone keeps them balanced.
pub of_journals :
    {A : Type 0} {m : Action A}
    → ((s : Store) → (m s).1.journals ≡ s.journals)
    → Preserves IsBalanced m
of_journals h = record { holds = λ s p. subst (All IsZeroSum) (sym (h s)) p }

pub create_journal-books :
    (now : ℕ) (o : CreateJournalOptions) → Preserves IsBalanced (create_journal now o)
create_journal-books now o = record { holds = create_journal-IsBalanced now o }

pub user_account-books :
    (w : ℕ) (t : LedgerAccountType) (c : Currency)
    → Preserves IsBalanced (get_or_create_user_account w t c)
unfolding get_or_create_user_account
user_account-books w t c = of_journals (λ s. ground arith)

pub platform_account-books :
    (k : ℕ) (t : LedgerAccountType) (c : Currency)
    → Preserves IsBalanced (get_or_create_platform_account k t c)
unfolding get_or_create_platform_account
platform_account-books k t c = of_journals (λ s. ground arith)

pub update_escrow-books :
    (id : ℕ) (f : EscrowHold → EscrowHold) → Preserves IsBalanced (update_escrow id f)
unfolding update_escrow
update_escrow-books id f = of_journals (λ s. ground arith)

pub update_order-books : (id : ℕ) (f : Order → Order) → Preserves IsBalanced (update_order id f)
unfolding update_order
update_order-books id f = of_journals (λ s. ground arith)

pub update_wallet_id-books :
    (id : ℕ) (f : Wallet → Wallet) → Preserves IsBalanced (update_wallet_id id f)
unfolding update_wallet_id
update_wallet_id-books id f = of_journals (λ s. ground arith)

pub insert_escrow-books :
    (o b : ℕ) (v : Option ℕ) (a : ℤ) (t : ℕ) → Preserves IsBalanced (insert_escrow o b v a t)
unfolding insert_escrow
insert_escrow-books o b v a t = record { holds = λ s h. ground arith }

pub insert_dispute-books : (o a : ℕ) (d : Option ℕ) → Preserves IsBalanced (insert_dispute o a d)
unfolding insert_dispute
insert_dispute-books o a d = of_journals (λ s. ground arith)

pub unlock_balance-books : (u : ℕ) (a : ℤ) → Preserves IsBalanced (unlock_balance u a)
unfolding unlock_balance
unlock_balance-books u a = of_journals (λ s. ground arith)

update_wallet-books : (u : ℕ) (f : Wallet → Wallet) → Preserves IsBalanced (update_wallet u f)
unfolding update_wallet
update_wallet-books u f = of_journals (λ s. ground arith)

create_wallet-books : (u : ℕ) (c : Currency) → Preserves IsBalanced (create_wallet u c)
unfolding create_wallet
create_wallet-books u c = of_journals (λ s. ground arith)

lock_attempt-books : (u : ℕ) (a : ℤ) (i : ℕ) → Preserves IsBalanced (lock_attempt u a (alone i))
unfolding lock_attempt
lock_attempt-books u a i = of_journals (λ s. ground arith)

retries-books :
    (u : ℕ) (a : ℤ) (conflict : Error) (left i : ℕ) (last : Error)
    → Preserves IsBalanced (with_retries alone (lock_attempt u a) conflict left i last)
retries-books u a conflict left i last = record {
  holds =
      with_retries_inv IsBalanced alone (lock_attempt u a) conflict
        (λ j. (lock_attempt-books u a j).holds) left i last;
}

pub reads-books : {A : Type 0} {m : Action A} → IsReadOnly m → Preserves IsBalanced m
reads-books h = IsReadOnly-Preserves IsBalanced h

pub ruleset books = (
  Preserves->>=, Preserves->>, in_transaction-Preserves, Preserves-existing_or, Preserves-if,
  reads-books,
)

pub lock_balance-books : (u : ℕ) (a : ℤ) → Preserves IsBalanced (lock_balance alone u a)
unfolding lock_balance
lock_balance-books u a = search (reads, books, retries-books) depth 8

pub transfer-books : (u v : ℕ) (a : ℤ) → Preserves IsBalanced (transfer_locked_balance u v a)
unfolding transfer_locked_balance
transfer-books u v a = search (reads, books, create_wallet-books, update_wallet-books) depth 20

pub deduct_fee-books : (w : ℕ) (fee : ℤ) → Preserves IsBalanced (deduct_fee w fee)
unfolding deduct_fee
deduct_fee-books w fee = of_journals (λ s. ground arith)

pub seller_account-books :
    (a : ℕ) (w : Option Wallet) → Preserves IsBalanced (seller_account_or a w)
seller_account-books a none = search (reads, books)
seller_account-books a (some w) = search (reads, books, user_account-books) depth 8

pub pay_seller-books : (a : ℤ) (w : Option Wallet) → Preserves IsBalanced (pay_seller a w)
pay_seller-books a none = search (reads, books)
pay_seller-books a (some w) = search (reads, books, update_wallet_id-books) depth 8
