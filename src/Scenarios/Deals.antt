-- ===== src/Scenarios/Deals.antt =====
-- Runs of the escrow service.
use rekberkan.Base.{◌≡◌, refl, none, some, [], arith}
use rekberkan.Base.Int.{pos, ◌+ℤ◌, ◌-ℤ◌, neg}
use rekberkan.Ledger.Journal.{refers, new_entries}
use rekberkan.Store.{Store, EscrowHold, EscrowHoldStatus, err, Error}
use rekberkan.Store.Rules.{Undone}
use rekberkan.Ledger.Balanced.{IsBalanced}
use rekberkan.Escrow.Machine.{Resolution}
use rekberkan.Escrow.Rows.{settle, new_escrow}
use rekberkan.Escrow.Create.{CreateEscrowOptions, timeout_of, create_escrow}
use rekberkan.Escrow.Opened.{Locks, Opens, create_escrow-ok}
use rekberkan.Escrow.Settle.{release_escrow, refund_escrow}
use rekberkan.Escrow.Dispute.{ResolveDisputeOptions, initiate_dispute, resolve_dispute}
use rekberkan.Escrow.Atomic.{escrow_operations_undo}
use rekberkan.Escrow.Books.{escrow_operations_balance}
use rekberkan.Escrow.Release.{Released, release_escrow-ok}
use rekberkan.Escrow.Refund.{Refunded, refund_escrow-ok}
use rekberkan.Escrow.Unreachable.{resolve_dispute_refused}
use rekberkan.Scenarios.{market, held, paid_order, buyer_wallet}

abbrev released_market : Store
released_market = (release_escrow 100 5 1 (pos 20) 9 market).1

release_escrow-ok_example :
    Released 100 5 1 (pos 20) market released_market (settle EscrowHoldStatus.released 100 held)
unfolding release_escrow ◌+ℤ◌ neg ◌-ℤ◌ new_entries refers
release_escrow-ok_example =
    release_escrow-ok 100 5 1 9 (pos 20) market released_market
      (settle EscrowHoldStatus.released 100 held) (omega arith) refl

abbrev refunded_market : Store
refunded_market = (refund_escrow 100 5 2 9 market).1

refund_escrow-ok_example :
    Refunded 100 5 2 market refunded_market (settle EscrowHoldStatus.refunded 100 held)
unfolding refund_escrow ◌+ℤ◌ neg new_entries refers
refund_escrow-ok_example =
    refund_escrow-ok 100 5 2 9 market refunded_market (settle EscrowHoldStatus.refunded 100 held)
      refl

-- A second escrow of the buyer's, for an order that is not there: the call throws.
abbrev second : CreateEscrowOptions
second = record {
  order_id = 8;
  buyer_user_id = 1;
  seller_user_id = some 2;
  amount_minor = pos 300;
  timeout_hours = none;
  idempotency_key = 10;
}

abbrev verdict : ResolveDisputeOptions
verdict = record {
  escrow_id = 5;
  resolver_id = 3;
  buyer_refund_minor = pos 200;
  seller_amount_minor = pos 280;
  platform_fee_minor = pos 20;
  outcome = Resolution.split;
  idempotency_key = 11;
}

escrow_operations_undo_example :
    Undone market (create_escrow 100 second market)
    × Undone market (release_escrow 100 5 2 (pos 20) 9 market)
    × Undone market (refund_escrow 100 5 2 9 market)
    × Undone market (initiate_dispute 5 2 market)
    × Undone market (resolve_dispute 100 verdict market)
escrow_operations_undo_example = escrow_operations_undo 100 5 2 9 (pos 20) second verdict market

escrow_operations_balance_example :
    IsBalanced (create_escrow 100 second released_market).1
    × IsBalanced (release_escrow 100 5 1 (pos 20) 9 released_market).1
    × IsBalanced (refund_escrow 100 5 1 9 released_market).1
    × IsBalanced (initiate_dispute 5 1 released_market).1
    × IsBalanced (resolve_dispute 100 verdict released_market).1
unfolding release_escrow ◌+ℤ◌ neg ◌-ℤ◌ new_entries refers
escrow_operations_balance_example =
    escrow_operations_balance 100 5 1 9 (pos 20) second verdict released_market (refl, tt)

resolve_dispute_refused_example :
    resolve_dispute 100 verdict market
    ≡ (err (Error.invalid_transition EscrowHoldStatus.active), market)
resolve_dispute_refused_example =
    resolve_dispute_refused 100 verdict held paid_order buyer_wallet market refl refl refl

-- The market before the order was paid
abbrev unpaid_market : Store
unpaid_market = record market { escrows = [] }

abbrev first : CreateEscrowOptions
first = record second { order_id = 7 }

abbrev opened : EscrowHold
opened = new_escrow 100 7 11 (some 12) (pos 300) (timeout_of 100 first)

create_escrow-ok_example :
    Locks 1 (pos 300) unpaid_market (create_escrow 100 first unpaid_market).1
    × Opens 100 first unpaid_market (create_escrow 100 first unpaid_market).1 opened
unfolding create_escrow ◌+ℤ◌ neg ◌-ℤ◌ new_entries refers
create_escrow-ok_example =
    create_escrow-ok 100 first unpaid_market (create_escrow 100 first unpaid_market).1 opened refl
      refl
