-- ===== src/Escrow/Settle.antt =====
-- `releaseEscrow`, `refundEscrow`, `initiateDispute` and `resolveDispute`
-- (kahade-backend/src/core/escrow/escrow.service.ts). `now` is the date that a call reads; `_tx` are
-- the bodies of the `$transaction` blocks. A related row that is missing, which the foreign keys of
-- the schema exclude, ends a call.
use rekberkan.Base.{ℕ, Bool, true, Option, none, some, if◌then◌else◌, ◌==◌}
use rekberkan.Base.Int.{ℤ, ◌-ℤ◌, 0ℤ, ltb_ℤ}
use rekberkan.Store.{
  Store, Wallet, LedgerJournal, EscrowHold, EscrowHoldStatus, Order, OrderStatus, LedgerAccountType,
  idr, Action, Result, ok, Error, ◌>>=◌, ◌>>◌, pure, gets, or_raise, in_transaction,
}
use rekberkan.Wallet.Moves.{unlock_balance, transfer_locked_balance}
use rekberkan.Ledger.Accounts.{get_or_create_user_account, get_or_create_platform_account}
use rekberkan.Ledger.Records.{record_escrow_release, record_escrow_refund}
use rekberkan.Escrow.Machine.{
  status, EscrowAction, validate_escrow_transition, validate_actor_permission,
}
use rekberkan.Escrow.Rows.{
  escrow_holding, platform_fees, system, check, find_escrow, find_order, find_wallet_id,
  update_wallet_id, update_escrow, update_order, settle, complete,
}

-- The seller's wallet, if the escrow names one.
abbrev pub seller_wallet_of : EscrowHold → Store → Option Wallet
seller_wallet_of e s = elim e.seller_wallet_id [ none ↦ none | some id ↦ find_wallet_id id s ]

abbrev pub pay_fee : ℤ → Wallet → Wallet
pay_fee fee w = record w {
  balance_minor = w.balance_minor -ℤ fee;
  locked_minor = w.locked_minor -ℤ fee;
}

-- `if (platformFeeMinor > 0n) await tx.wallet.update(...)`
unfoldable pub deduct_fee : ℕ → ℤ → Action (Unit {0})
unfolding update_wallet_id
deduct_fee wallet fee =
    if ltb_ℤ 0ℤ fee then update_wallet_id wallet (pay_fee fee) >> pure tt else pure tt

-- The ledger part of the release
unfoldable pub post_release : ℕ → EscrowHold → Wallet → ℤ → ℕ → Action LedgerJournal
unfolding get_or_create_user_account get_or_create_platform_account record_escrow_release
post_release now e seller_wallet fee key = do
  escrow_account ← get_or_create_platform_account escrow_holding LedgerAccountType.liability idr
  seller_account ← get_or_create_user_account seller_wallet.id LedgerAccountType.asset idr
  fee_account ← get_or_create_platform_account platform_fees LedgerAccountType.revenue idr
  record_escrow_release now escrow_account.id seller_account.id fee_account.id e.amount_minor fee
      e.id e.order_id key

unfoldable pub release_tx : ℕ → EscrowHold → Wallet → Wallet → ℤ → ℕ → Action EscrowHold
unfolding post_release transfer_locked_balance deduct_fee update_escrow update_order
release_tx now e buyer_wallet seller_wallet fee key = do
  post_release now e seller_wallet fee key
  transfer_locked_balance buyer_wallet.user_id seller_wallet.user_id (e.amount_minor -ℤ fee)
  deduct_fee buyer_wallet.id fee
  updated ← update_escrow e.id (settle EscrowHoldStatus.released now)
  update_order e.order_id (complete now)
  pure updated

-- `releaseEscrow`
unfoldable pub release_escrow : ℕ → ℕ → ℕ → ℤ → ℕ → Action EscrowHold
unfolding validate_escrow_transition validate_actor_permission release_tx
release_escrow now id actor fee key = do
  e ← or_raise Error.not_found (← gets (find_escrow id))
  order ← or_raise Error.record_not_found (← gets (find_order e.order_id))
  buyer_wallet ← or_raise Error.record_not_found (← gets (find_wallet_id e.buyer_wallet_id))
  check (validate_escrow_transition e.status (status EscrowHoldStatus.released))
  check (validate_actor_permission order actor EscrowAction.release)
  seller_wallet ← or_raise Error.bad_request (← gets (seller_wallet_of e))
  in_transaction (release_tx now e buyer_wallet seller_wallet fee key)

abbrev pub refund_order : ℕ → Order → Order
refund_order now o = record o { status = OrderStatus.refunded; cancelled_at = some now }

-- The ledger part of the refund
unfoldable pub post_refund : ℕ → EscrowHold → Wallet → ℕ → Action LedgerJournal
unfolding get_or_create_user_account get_or_create_platform_account record_escrow_refund
post_refund now e buyer_wallet key = do
  escrow_account ← get_or_create_platform_account escrow_holding LedgerAccountType.liability idr
  buyer_account ← get_or_create_user_account buyer_wallet.id LedgerAccountType.asset idr
  record_escrow_refund now escrow_account.id buyer_account.id e.amount_minor e.id e.order_id key

unfoldable pub refund_tx : ℕ → EscrowHold → Wallet → ℕ → Action EscrowHold
unfolding post_refund unlock_balance update_escrow update_order
refund_tx now e buyer_wallet key = do
  post_refund now e buyer_wallet key
  unlock_balance buyer_wallet.user_id e.amount_minor
  updated ← update_escrow e.id (settle EscrowHoldStatus.refunded now)
  update_order e.order_id (refund_order now)
  pure updated

-- `if (actorId !== "SYSTEM") this.validateActorPermission(...)`
abbrev pub may_refund : Order → ℕ → Result Bool
may_refund order actor =
    if actor == system then ok true else validate_actor_permission order actor EscrowAction.refund

-- `refundEscrow`
unfoldable pub refund_escrow : ℕ → ℕ → ℕ → ℕ → Action EscrowHold
unfolding validate_escrow_transition validate_actor_permission refund_tx
refund_escrow now id actor key = do
  e ← or_raise Error.not_found (← gets (find_escrow id))
  order ← or_raise Error.record_not_found (← gets (find_order e.order_id))
  buyer_wallet ← or_raise Error.record_not_found (← gets (find_wallet_id e.buyer_wallet_id))
  check (validate_escrow_transition e.status (status EscrowHoldStatus.refunded))
  check (may_refund order actor)
  in_transaction (refund_tx now e buyer_wallet key)
