-- ===== src/Escrow/Books.antt =====
-- The ledger stays balanced under the operations of
-- kahade-backend/src/core/escrow/escrow.service.ts: their postings are the only writes to it.
use rekberkan.Base.{ℕ, refl, Option, none, some}
use rekberkan.Base.Int.{ℤ}
use rekberkan.Store.{Store, Wallet, EscrowHold, Dispute}
use rekberkan.Store.Rules.{Preserves, reads}
use rekberkan.Ledger.Balanced.{IsBalanced}
use rekberkan.Ledger.Records.{
  record_escrow_hold, record_escrow_release, record_escrow_refund, record_dispute_resolution,
}
use rekberkan.Escrow.Machine.{StatusText, status, resolution}
use rekberkan.Escrow.Create.{
  CreateEscrowOptions, create_escrow, create_new, create_escrow_tx, post_hold,
}
use rekberkan.Escrow.Settle.{
  release_escrow, refund_escrow, release_tx, refund_tx, post_release, post_refund,
}
use rekberkan.Escrow.Dispute.{
  ResolveDisputeOptions, initiate_dispute, resolve_dispute, dispute_tx, resolve_tx, set_status_text,
  close_dispute,
}
use rekberkan.Escrow.Atomic.{check-IsReadOnly}
use rekberkan.Escrow.Booked.{
  of_journals, create_journal-books, user_account-books, platform_account-books,
  update_escrow-books, update_order-books, update_wallet_id-books, insert_escrow-books,
  insert_dispute-books, unlock_balance-books, lock_balance-books, transfer-books, deduct_fee-books,
  seller_account-books, pay_seller-books, books,
}

set_status_text-books :
    (now id : ℕ) (t : StatusText) → Preserves IsBalanced (set_status_text now id t)
unfolding set_status_text
set_status_text-books now id (status st) = update_escrow-books id _
set_status_text-books now id (resolution r) = search (reads, books)

close_dispute-books :
    (now r : ℕ) (d : Option Dispute) → Preserves IsBalanced (close_dispute now r d)
close_dispute-books now r none = search (reads, books)
close_dispute-books now r (some d) = of_journals (λ s. refl)

ruleset ledger_books = (create_journal-books, user_account-books, platform_account-books)

ruleset row_books = (
  update_escrow-books, update_order-books, update_wallet_id-books, insert_escrow-books,
  insert_dispute-books,
)

ruleset money_books = (unlock_balance-books, lock_balance-books, transfer-books, deduct_fee-books)

create_tx-books :
    (now : ℕ) (o : CreateEscrowOptions) (b : Wallet) (v : Option Wallet)
    → Preserves IsBalanced (create_escrow_tx now o b v)
unfolding create_escrow_tx post_hold record_escrow_hold
create_tx-books now o b v = search (reads, books, ledger_books, row_books, money_books) depth 30

create_new-books : (now : ℕ) (o : CreateEscrowOptions) → Preserves IsBalanced (create_new now o)
unfolding create_new
create_new-books now o = search (reads, books, create_tx-books) depth 12

release_tx-books :
    (now : ℕ) (e : EscrowHold) (b v : Wallet) (fee : ℤ) (key : ℕ)
    → Preserves IsBalanced (release_tx now e b v fee key)
unfolding release_tx post_release record_escrow_release
release_tx-books now e b v fee key =
    search (reads, books, ledger_books, row_books, money_books) depth 30

refund_tx-books :
    (now : ℕ) (e : EscrowHold) (b : Wallet) (key : ℕ) → Preserves IsBalanced (refund_tx now e b key)
unfolding refund_tx post_refund record_escrow_refund
refund_tx-books now e b key = search (reads, books, ledger_books, row_books, money_books) depth 30

dispute_tx-books : (e : EscrowHold) (a : ℕ) → Preserves IsBalanced (dispute_tx e a)
unfolding dispute_tx
dispute_tx-books e a = search (reads, books, row_books) depth 20

resolve_tx-books :
    (now : ℕ) (o : ResolveDisputeOptions) (e : EscrowHold) (b : Wallet) (v : Option Wallet)
    → Preserves IsBalanced (resolve_tx now o e b v)
unfolding resolve_tx record_dispute_resolution
resolve_tx-books now o e b v =
    search
      (
        reads, books, ledger_books, row_books, seller_account-books, pay_seller-books,
        set_status_text-books, close_dispute-books,
      )
      depth 40

escrow_operations-books :
    (now id actor key : ℕ) (fee : ℤ) (o : CreateEscrowOptions) (d : ResolveDisputeOptions)
    → Preserves IsBalanced (create_escrow now o)
      × Preserves IsBalanced (release_escrow now id actor fee key)
      × Preserves IsBalanced (refund_escrow now id actor key)
      × Preserves IsBalanced (initiate_dispute id actor)
      × Preserves IsBalanced (resolve_dispute now d)
unfolding create_escrow release_escrow refund_escrow initiate_dispute resolve_dispute
escrow_operations-books now id actor key fee o d = (
  search (reads, books, create_new-books) depth 12,
  search (reads, check-IsReadOnly, books, release_tx-books) depth 20,
  search (reads, check-IsReadOnly, books, refund_tx-books) depth 20,
  search (reads, check-IsReadOnly, books, dispute_tx-books) depth 20,
  search (reads, check-IsReadOnly, books, resolve_tx-books) depth 24,
)

-- However a call of `createEscrow`, `releaseEscrow`, `refundEscrow`, `initiateDispute` or
-- `resolveDispute` ends, every journal of the ledger sums to zero after it if every one did before.
pub escrow_operations_balance :
    (now id actor key : ℕ) (fee : ℤ) (o : CreateEscrowOptions) (d : ResolveDisputeOptions)
    (s : Store)
    → IsBalanced s
    → IsBalanced (create_escrow now o s).1
      × IsBalanced (release_escrow now id actor fee key s).1
      × IsBalanced (refund_escrow now id actor key s).1
      × IsBalanced (initiate_dispute id actor s).1
      × IsBalanced (resolve_dispute now d s).1
escrow_operations_balance now id actor key fee o d s h =
    let (a, b, c, e, f) = escrow_operations-books now id actor key fee o d in
    (a.holds s h, b.holds s h, c.holds s h, e.holds s h, f.holds s h)
