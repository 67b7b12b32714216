-- ===== src/Escrow/Create.antt =====
-- `createEscrow` (kahade-backend/src/core/escrow/escrow.service.ts). `now` is the date that a call
-- reads; `_tx` is the body of a `$transaction` block.
use rekberkan.Base.{ℕ, ◌+◌, ◌*◌, Option, none, some, get_or}
use rekberkan.Base.Int.{ℤ}
use rekberkan.Base.Table.{find_by}
use rekberkan.Store.{
  Store, Wallet, EscrowHold, Order, OrderStatus, LedgerJournal, LedgerAccountType, idr, Action,
  Error, ◌>>=◌, ◌>>◌, pure, existing_or, gets, or_raise, in_transaction,
}
use rekberkan.Wallet.Rows.{find_wallet}
use rekberkan.Wallet.Retry.{alone, lock_balance}
use rekberkan.Ledger.Accounts.{get_or_create_user_account, get_or_create_platform_account}
use rekberkan.Ledger.Records.{record_escrow_hold}
use rekberkan.Escrow.Rows.{escrow_holding, update_order, insert_escrow}

pub record CreateEscrowOptions : Type 0 where
  pub order_id : ℕ
  pub buyer_user_id : ℕ
  pub seller_user_id : Option ℕ
  pub amount_minor : ℤ
  pub timeout_hours : Option ℕ
  pub idempotency_key : ℕ

abbrev pub default_timeout_hours : ℕ
default_timeout_hours = 72

abbrev pub timeout_of : ℕ → CreateEscrowOptions → ℕ
timeout_of now o = now + get_or o.timeout_hours default_timeout_hours * 60 * 60 * 1000

abbrev pub find_seller : Option ℕ → Store → Option Wallet
find_seller none s = none
find_seller (some u) s = find_wallet u s

abbrev pub wallet_ref : Option Wallet → Option ℕ
wallet_ref none = none
wallet_ref (some w) = some w.id

-- The ledger part of the hold
unfoldable pub post_hold : ℕ → Wallet → EscrowHold → CreateEscrowOptions → Action LedgerJournal
unfolding get_or_create_user_account get_or_create_platform_account record_escrow_hold
post_hold now buyer_wallet escrow o = do
  buyer_account ← get_or_create_user_account buyer_wallet.id LedgerAccountType.asset idr
  escrow_account ← get_or_create_platform_account escrow_holding LedgerAccountType.liability idr
  record_escrow_hold now buyer_account.id escrow_account.id o.amount_minor escrow.id o.order_id
      o.idempotency_key

abbrev pub pay : ℕ → CreateEscrowOptions → Order → Order
pay now o x = record x { status = OrderStatus.paid; auto_release_at = some (timeout_of now o) }

unfoldable pub create_escrow_tx :
    ℕ → CreateEscrowOptions → Wallet → Option Wallet → Action EscrowHold
unfolding lock_balance insert_escrow post_hold update_order
create_escrow_tx now o buyer_wallet seller_wallet = do
  lock_balance alone o.buyer_user_id o.amount_minor
  escrow ←
      insert_escrow o.order_id buyer_wallet.id (wallet_ref seller_wallet) o.amount_minor
        (timeout_of now o)
  post_hold now buyer_wallet escrow o
  update_order o.order_id (pay now o)
  pure escrow

-- `createEscrow` for an order that has no escrow yet
unfoldable pub create_new : ℕ → CreateEscrowOptions → Action EscrowHold
unfolding create_escrow_tx
create_new now o = do
  buyer_wallet ← or_raise Error.not_found (← gets (find_wallet o.buyer_user_id))
  seller_wallet ← gets (find_seller o.seller_user_id)
  in_transaction (create_escrow_tx now o buyer_wallet seller_wallet)

-- `createEscrow`
unfoldable pub create_escrow : ℕ → CreateEscrowOptions → Action EscrowHold
unfolding create_new
create_escrow now o = do
  existing ← gets (λ s. find_by EscrowHold.order_id o.order_id s.escrows)
  existing_or existing (create_new now o)
