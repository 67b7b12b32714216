-- ===== src/Escrow/Rows.antt =====
-- The rows that the escrow service reads and writes, and the updates that it makes
-- (kahade-backend/src/core/escrow/escrow.service.ts,
-- kahade-backend/prisma/schema/50_order_escrow.prisma).
use rekberkan.Base.{◌||◌, ℕ, ◌+◌, false, is_some, if◌then◌else◌, Option, none, some, [], ◌∷◌, ◌++◌}
use rekberkan.Base.Int.{ℤ}
use rekberkan.Base.Table.{find_by, update_by}
use rekberkan.Store.{
  Store, Wallet, EscrowHold, EscrowHoldStatus, Order, OrderStatus, Action, Result, ok, err, Error,
}

-- The platform keys "ESCROW_HOLDING" and "PLATFORM_FEES", and the actor "SYSTEM".
abbrev pub escrow_holding : ℕ
escrow_holding = 0

abbrev pub platform_fees : ℕ
platform_fees = 1

abbrev pub system : ℕ
system = 0

-- A check of the state machine inside a call.
abbrev pub check : {A : Type 0} → Result A → Action A
check r s = (r, s)

abbrev pub find_escrow : ℕ → Store → Option EscrowHold
find_escrow id s = find_by EscrowHold.id id s.escrows

abbrev pub find_order : ℕ → Store → Option Order
find_order id s = find_by Order.id id s.orders

-- `wallet` rows by their own identifier
abbrev pub find_wallet_id : ℕ → Store → Option Wallet
find_wallet_id id s = find_by Wallet.id id s.wallets

unfoldable pub update_wallet_id : ℕ → (Wallet → Wallet) → Action Wallet
update_wallet_id id f s = elim (find_wallet_id id s) [
  | none ↦ (err Error.record_not_found, s)
  | some w ↦ (ok (f w), record s { wallets = update_by Wallet.id id f s.wallets })
]

unfoldable pub update_escrow : ℕ → (EscrowHold → EscrowHold) → Action EscrowHold
update_escrow id f s = elim (find_escrow id s) [
  | none ↦ (err Error.record_not_found, s)
  | some e ↦ (ok (f e), record s { escrows = update_by EscrowHold.id id f s.escrows })
]

unfoldable pub update_order : ℕ → (Order → Order) → Action Order
update_order id f s = elim (find_order id s) [
  | none ↦ (err Error.record_not_found, s)
  | some o ↦ (ok (f o), record s { orders = update_by Order.id id f s.orders })
]

abbrev pub settle : EscrowHoldStatus → ℕ → EscrowHold → EscrowHold
settle st now e = record e { status = st; resolved_at = some now }

abbrev pub complete : ℕ → Order → Order
complete now o = record o { status = OrderStatus.completed; completed_at = some now }

-- The row of `escrowHold.create`
abbrev pub new_escrow : ℕ → ℕ → ℕ → Option ℕ → ℤ → ℕ → EscrowHold
new_escrow id order buyer_wallet seller_wallet amount timeout = record {
  id = id;
  order_id = order;
  buyer_wallet_id = buyer_wallet;
  seller_wallet_id = seller_wallet;
  amount_minor = amount;
  status = EscrowHoldStatus.active;
  resolved_at = none;
  timeout_at = some timeout;
  is_archived = false;
  archived_at = none;
}

-- The identifier and the order are unique columns.
unfoldable pub insert_escrow : ℕ → ℕ → Option ℕ → ℤ → ℕ → Action EscrowHold
insert_escrow order buyer_wallet seller_wallet amount timeout s =
    let e = new_escrow s.next_id order buyer_wallet seller_wallet amount timeout in
    if is_some (find_escrow s.next_id s) || is_some (find_by EscrowHold.order_id order s.escrows)
    then (err Error.unique_violation, s)
    else (ok e, record s { escrows = s.escrows ++ e ∷ []; next_id = s.next_id + 1 })
