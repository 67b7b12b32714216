-- ===== src/Escrow/Dispute.antt =====
-- `initiateDispute` and `resolveDispute` (kahade-backend/src/core/escrow/escrow.service.ts). `now` is
-- the date that a call reads; `_tx` are the bodies of the `$transaction` blocks.
use rekberkan.Base.{
  true, ℕ, ◌+◌, not, Option, none, some, [], ◌∷◌, ◌++◌, if◌then◌else◌, ◌&&◌, is_some,
}
use rekberkan.Base.Int.{ℤ, ◌+ℤ◌, ◌-ℤ◌, 0ℤ, ltb_ℤ, eqb_ℤ}
use rekberkan.Base.Table.{find_by, update_by}
use rekberkan.Store.{
  Wallet, EscrowHold, EscrowHoldStatus, OrderStatus, Dispute, DisputeStatus, DisputeDecision,
  LedgerAccountType, idr, Action, ok, err, Error, ◌>>=◌, ◌>>◌, pure, raise, raise_if, gets,
  or_raise, modify, in_transaction,
}
use rekberkan.Ledger.Accounts.{get_or_create_user_account, get_or_create_platform_account}
use rekberkan.Ledger.Records.{record_dispute_resolution}
use rekberkan.Escrow.Machine.{
  StatusText, status, resolution, Resolution, EscrowAction, validate_escrow_transition,
  validate_actor_permission,
}
use rekberkan.Escrow.Rows.{
  escrow_holding, platform_fees, check, find_escrow, find_order, find_wallet_id, update_wallet_id,
  update_escrow, update_order, settle, complete,
}
use rekberkan.Escrow.Settle.{seller_wallet_of}

-- The row of `dispute.create`
abbrev pub new_dispute : ℕ → ℕ → ℕ → Option ℕ → Dispute
new_dispute id order actor deadline = record {
  id = id;
  order_id = order;
  opened_by = actor;
  status = DisputeStatus.opened;
  response_deadline = deadline;
  escalated_at = none;
  escalated_to = none;
  arbitrator_id = none;
  decision = DisputeDecision.undecided;
  seller_amount_minor = none;
  buyer_refund_minor = none;
  can_appeal = true;
  appeal_deadline = none;
  appeal_count = 0;
  decided_at = none;
}

-- An order has one dispute at most (`orderId` is unique).
unfoldable pub insert_dispute : ℕ → ℕ → Option ℕ → Action Dispute
insert_dispute order actor deadline s = elim (find_by Dispute.order_id order s.disputes) [
  | some d ↦ (err Error.unique_violation, s)
  | none ↦ (
    ok (new_dispute s.next_id order actor deadline),
    record s {
      disputes = s.disputes ++ new_dispute s.next_id order actor deadline ∷ [];
      next_id = s.next_id + 1;
    },
  )
]

unfoldable pub dispute_tx : EscrowHold → ℕ → Action EscrowHold
unfolding update_escrow update_order insert_dispute
dispute_tx e actor = do
  updated ← update_escrow e.id (λ x. record x { status = EscrowHoldStatus.disputed })
  update_order e.order_id (λ o. record o { status = OrderStatus.disputed })
  insert_dispute e.order_id actor none
  pure updated

-- `initiateDispute`
unfoldable pub initiate_dispute : ℕ → ℕ → Action EscrowHold
unfolding validate_escrow_transition validate_actor_permission dispute_tx
initiate_dispute id actor = do
  e ← or_raise Error.not_found (← gets (find_escrow id))
  order ← or_raise Error.record_not_found (← gets (find_order e.order_id))
  check (validate_escrow_transition e.status (status EscrowHoldStatus.disputed))
  check (validate_actor_permission order actor EscrowAction.dispute)
  in_transaction (dispute_tx e actor)

pub record ResolveDisputeOptions : Type 0 where
  pub escrow_id : ℕ
  pub resolver_id : ℕ
  pub buyer_refund_minor : ℤ
  pub seller_amount_minor : ℤ
  pub platform_fee_minor : ℤ
  pub outcome : Resolution
  pub idempotency_key : ℕ

-- The account that the seller's part goes to: the buyer's, if there is no seller's wallet.
abbrev pub seller_account_or : ℕ → Option Wallet → Action ℕ
seller_account_or buyer_account none = pure buyer_account
seller_account_or buyer_account (some w) = do
  account ← get_or_create_user_account w.id LedgerAccountType.asset idr
  pure account.id

abbrev pub take_from_buyer : ℤ → ℤ → Wallet → Wallet
take_from_buyer amount refund w = record w {
  locked_minor = w.locked_minor -ℤ amount;
  balance_minor = w.balance_minor -ℤ (amount -ℤ refund);
}

-- `if (sellerAmountMinor > 0n && escrow.sellerWallet) ...`
abbrev pub pay_seller : ℤ → Option Wallet → Action (Unit {0})
pay_seller amount none = pure tt
pay_seller amount (some w) =
    if ltb_ℤ 0ℤ amount
    then update_wallet_id w.id (λ x. record x { balance_minor = x.balance_minor +ℤ amount })
      >> pure tt
    else pure tt

-- `status: resolution as EscrowHoldStatus`: the database takes the texts of the enum only.
unfoldable pub set_status_text : ℕ → ℕ → StatusText → Action EscrowHold
unfolding update_escrow
set_status_text now id (status st) = update_escrow id (settle st now)
set_status_text now id (resolution r) = raise Error.internal

abbrev pub close_dispute : ℕ → ℕ → Option Dispute → Action (Unit {0})
close_dispute now resolver none = pure tt
close_dispute now resolver (some d) = modify (λ s. record s {
  disputes =
      update_by Dispute.id d.id
        (λ x. record x {
          status = DisputeStatus.closed;
          arbitrator_id = some resolver;
          decided_at = some now;
        })
        s.disputes;
})

abbrev dispute_or : Option Dispute → ℕ → ℕ
dispute_or none id = id
dispute_or (some d) id = d.id

unfoldable pub resolve_tx :
    ℕ → ResolveDisputeOptions → EscrowHold → Wallet → Option Wallet → Action EscrowHold
unfolding get_or_create_user_account get_or_create_platform_account record_dispute_resolution
    update_wallet_id set_status_text update_order
resolve_tx now o e buyer_wallet seller_wallet = do
  escrow_account ← get_or_create_platform_account escrow_holding LedgerAccountType.liability idr
  buyer_account ← get_or_create_user_account buyer_wallet.id LedgerAccountType.asset idr
  seller_account ← seller_account_or buyer_account.id seller_wallet
  fee_account ← get_or_create_platform_account platform_fees LedgerAccountType.revenue idr
  dispute ← gets (λ s. find_by Dispute.order_id e.order_id s.disputes)
  record_dispute_resolution now escrow_account.id buyer_account.id seller_account fee_account.id
      o.buyer_refund_minor o.seller_amount_minor o.platform_fee_minor (dispute_or dispute e.id)
      e.order_id o.idempotency_key
  update_wallet_id buyer_wallet.id (take_from_buyer e.amount_minor o.buyer_refund_minor)
  pay_seller o.seller_amount_minor seller_wallet
  updated ← set_status_text now e.id (resolution o.outcome)
  update_order e.order_id (complete now)
  close_dispute now o.resolver_id dispute
  pure updated

abbrev pub distribution : ResolveDisputeOptions → ℤ
distribution o = o.buyer_refund_minor +ℤ o.seller_amount_minor +ℤ o.platform_fee_minor

-- `resolveDispute`
unfoldable pub resolve_dispute : ℕ → ResolveDisputeOptions → Action EscrowHold
unfolding validate_escrow_transition resolve_tx
resolve_dispute now o = do
  e ← or_raise Error.not_found (← gets (find_escrow o.escrow_id))
  order ← or_raise Error.record_not_found (← gets (find_order e.order_id))
  buyer_wallet ← or_raise Error.record_not_found (← gets (find_wallet_id e.buyer_wallet_id))
  check (validate_escrow_transition e.status (resolution o.outcome))
  raise_if (not (eqb_ℤ (distribution o) e.amount_minor)) Error.bad_request
  seller_wallet ← gets (seller_wallet_of e)
  raise_if (not (is_some seller_wallet) && ltb_ℤ 0ℤ o.seller_amount_minor) Error.bad_request
  in_transaction (resolve_tx now o e buyer_wallet seller_wallet)
