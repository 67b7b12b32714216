-- ===== src/Escrow/Atomic.antt =====
-- The operations of kahade-backend/src/core/escrow/escrow.service.ts are all or nothing.
use rekberkan.Base.{ℕ, refl}
use rekberkan.Base.Int.{ℤ}
use rekberkan.Store.{Store, Result}
use rekberkan.Store.Rules.{IsReadOnly, IsAtomic, Undone, IsAtomic-Undone, reads, atomic}
use rekberkan.Escrow.Rows.{check}
use rekberkan.Escrow.Create.{CreateEscrowOptions, create_escrow, create_new}
use rekberkan.Escrow.Settle.{release_escrow, refund_escrow}
use rekberkan.Escrow.Dispute.{ResolveDisputeOptions, initiate_dispute, resolve_dispute}

pub check-IsReadOnly : {A : Type 0} (r : Result A) → IsReadOnly (check r)
check-IsReadOnly r = record { same = λ s. refl }

create_new-IsAtomic : (now : ℕ) (o : CreateEscrowOptions) → IsAtomic (create_new now o)
unfolding create_new
create_new-IsAtomic now o = search (reads, atomic) depth 16

pub create_escrow-IsAtomic : (now : ℕ) (o : CreateEscrowOptions) → IsAtomic (create_escrow now o)
unfolding create_escrow
create_escrow-IsAtomic now o = search (reads, atomic, create_new-IsAtomic) depth 16

pub release_escrow-IsAtomic :
    (now id actor : ℕ) (fee : ℤ) (key : ℕ) → IsAtomic (release_escrow now id actor fee key)
unfolding release_escrow
release_escrow-IsAtomic now id actor fee key = search (reads, atomic, check-IsReadOnly) depth 16

escrow_operations-IsAtomic :
    (now id actor key : ℕ) (fee : ℤ) (o : CreateEscrowOptions) (d : ResolveDisputeOptions)
    → IsAtomic (create_escrow now o)
      × IsAtomic (release_escrow now id actor fee key)
      × IsAtomic (refund_escrow now id actor key)
      × IsAtomic (initiate_dispute id actor)
      × IsAtomic (resolve_dispute now d)
unfolding refund_escrow initiate_dispute resolve_dispute
escrow_operations-IsAtomic now id actor key fee o d = (
  create_escrow-IsAtomic now o,
  release_escrow-IsAtomic now id actor fee key,
  search (reads, atomic, check-IsReadOnly) depth 16,
  search (reads, atomic, check-IsReadOnly) depth 16,
  search (reads, atomic, check-IsReadOnly) depth 20,
)

-- A call of `createEscrow`, `releaseEscrow`, `refundEscrow`, `initiateDispute` or `resolveDispute` that
-- throws has changed nothing in the tables.
pub escrow_operations_undo :
    (now id actor key : ℕ) (fee : ℤ) (o : CreateEscrowOptions) (d : ResolveDisputeOptions)
    (s : Store)
    → Undone s (create_escrow now o s)
      × Undone s (release_escrow now id actor fee key s)
      × Undone s (refund_escrow now id actor key s)
      × Undone s (initiate_dispute id actor s)
      × Undone s (resolve_dispute now d s)
escrow_operations_undo now id actor key fee o d s =
    let (a, b, c, e, f) = escrow_operations-IsAtomic now id actor key fee o d in
    (
      IsAtomic-Undone a s,
      IsAtomic-Undone b s,
      IsAtomic-Undone c s,
      IsAtomic-Undone e s,
      IsAtomic-Undone f s,
    )
