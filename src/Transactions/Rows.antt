-- ===== src/Transactions/Rows.antt =====
-- Orders as the transaction service reads and writes them
-- (kahade-backend/src/core/transaction/transaction.repository.ts, transaction.service.ts). An order
-- that is marked as deleted is found by its identifier. Amounts are whole hundredths.
use rekberkan.Base.{
  ℕ, ◌+◌, ◌*◌, ◌/◌, Bool, false, ◌&&◌, ◌||◌, Option, none, some, [], ◌∷◌, ◌++◌, is_some,
  if◌then◌else◌, ◌==◌, ltb,
}
use rekberkan.Base.Int.{ℤ, pos}
use rekberkan.Base.Table.{find_by, find_first}
use rekberkan.Store.{
  Store, User, Wallet, EscrowHold, EscrowHoldStatus, Order, OrderStatus, OrderCategory,
  InitiatorRole, FeePayer, Rating, DeliveryProof, Action, Result, ok, err, Error,
}
use rekberkan.Wallet.Rows.{find_wallet}
use rekberkan.Escrow.Rows.{find_order, find_escrow}
use rekberkan.Orders.Rows.{day}

-- `TransactionCategory`; the column of the order has fewer categories.
pub data TransactionCategory : Type 0 where
  electronics services digital_goods physical_goods fashion : TransactionCategory
  automotive property freelance other : TransactionCategory

abbrev pub category_of : TransactionCategory → Option OrderCategory
category_of TransactionCategory.electronics = some OrderCategory.electronics
category_of TransactionCategory.services = some OrderCategory.services
category_of TransactionCategory.digital_goods = some OrderCategory.digital_goods
category_of TransactionCategory.physical_goods = some OrderCategory.physical_goods
category_of TransactionCategory.other = some OrderCategory.other
category_of _ = none

pub data TransactionFeePayer : Type 0 where
  buyer seller split : TransactionFeePayer

abbrev pub fee_payer_of : TransactionFeePayer → FeePayer
fee_payer_of TransactionFeePayer.buyer = FeePayer.by_buyer
fee_payer_of TransactionFeePayer.seller = FeePayer.by_seller
fee_payer_of TransactionFeePayer.split = FeePayer.by_split

pub record CreateTransactionDto : Type 0 where
  pub counterparty_email : Option ℕ
  pub counterparty_id : Option ℕ
  pub role : InitiatorRole
  pub title : ℕ
  pub description : ℕ
  pub category : TransactionCategory
  pub amount_minor : ℕ
  pub fee_paid_by : TransactionFeePayer
  pub terms : Option ℕ

-- `Math.round(amount * PLATFORM_FEE_PERCENT)`: two and a half of each hundred, rounded
abbrev pub platform_fee : ℕ → ℤ
platform_fee n = pos ((n + 20) / 40)

-- `findByInviteToken`
abbrev pub find_by_token : ℕ → ℕ → Store → Option Order
find_by_token now token s =
    find_first (λ o. (o.invite_token == token) && ltb now o.invite_expires_at) s.orders

abbrev pub find_user : ℕ → Store → Option User
find_user id s = find_by User.id id s.users

abbrev pub find_by_email : ℕ → Store → Option User
find_by_email email s = find_by User.email email s.users

abbrev first_status : Option ℕ → OrderStatus
first_status none = OrderStatus.waiting_counterparty
first_status (some user) = OrderStatus.pending_accept

abbrev pub new_transaction : ℕ → ℕ → ℕ → ℕ → CreateTransactionDto → OrderCategory → Option ℕ → Order
new_transaction id now token user dto category counterparty = record {
  id = id;
  initiator_id = user;
  counterparty_id = counterparty;
  initiator_role = dto.role;
  title = dto.title;
  description = dto.description;
  category = category;
  amount_minor = pos dto.amount_minor;
  fee_payer = fee_payer_of dto.fee_paid_by;
  platform_fee_minor = platform_fee dto.amount_minor;
  holding_period_days = 7;
  custom_terms = dto.terms;
  status = first_status counterparty;
  invite_token = token;
  invite_expires_at = now + 7 * day;
  accepted_at = none;
  paid_at = none;
  auto_release_at = none;
  completed_at = none;
  cancelled_at = none;
  deleted_at = none;
  created_at = now;
}

-- `create` of the repository: the identifier and the invite token are unique columns, and a category
-- that the column does not have is refused.
unfoldable pub insert_transaction :
    ℕ → ℕ → ℕ → CreateTransactionDto → Option ℕ → Option OrderCategory → Action Order
insert_transaction now token user dto counterparty none s = (err Error.internal, s)
insert_transaction now token user dto counterparty (some category) s =
    let o = new_transaction s.next_id now token user dto category counterparty in
    if is_some (find_order s.next_id s) || is_some (find_by Order.invite_token token s.orders)
    then (err Error.unique_violation, s)
    else (ok o, record s { orders = s.orders ++ o ∷ []; next_id = s.next_id + 1 })

-- `escrowHold.create` of `pay`: the order is a unique column.
abbrev pub new_hold : ℕ → ℕ → ℕ → Option ℕ → ℤ → EscrowHold
new_hold id order buyer_wallet seller_wallet amount = record {
  id = id;
  order_id = order;
  buyer_wallet_id = buyer_wallet;
  seller_wallet_id = seller_wallet;
  amount_minor = amount;
  status = EscrowHoldStatus.held;
  resolved_at = none;
  timeout_at = none;
  is_archived = false;
  archived_at = none;
}

unfoldable pub insert_hold : ℕ → ℕ → Option ℕ → ℤ → Action EscrowHold
insert_hold order buyer_wallet seller_wallet amount s =
    let e = new_hold s.next_id order buyer_wallet seller_wallet amount in
    if is_some (find_escrow s.next_id s) || is_some (find_by EscrowHold.order_id order s.escrows)
    then (err Error.unique_violation, s)
    else (ok e, record s { escrows = s.escrows ++ e ∷ []; next_id = s.next_id + 1 })

unfoldable pub insert_proof : DeliveryProof → Action DeliveryProof
insert_proof p s =
    if is_some (find_by DeliveryProof.order_id p.order_id s.delivery_proofs)
    then (err Error.unique_violation, s)
    else (ok p, record s { delivery_proofs = s.delivery_proofs ++ p ∷ [] })

-- The rating that a user has given for an order; the two are unique together.
abbrev pub is_rating : ℕ → ℕ → Rating → Bool
is_rating order user r = (r.order_id == order) && (r.from_user_id == user)

unfoldable pub insert_rating : Rating → Action Rating
insert_rating r s =
    if is_some (find_first (is_rating r.order_id r.from_user_id) s.ratings)
    then (err Error.unique_violation, s)
    else (ok r, record s { ratings = s.ratings ++ r ∷ [] })

-- The `catch` that throws an exception of its own
abbrev pub instead : {A : Type 0} → Error → Result A × Store → Result A × Store
instead e (ok a, s) = (ok a, s)
instead e (err x, s) = (err e, s)

abbrev pub caught : {A : Type 0} → Error → Action A → Action A
caught e m s = instead e (m s)

abbrev wallet_id : Option Wallet → Option ℕ
wallet_id none = none
wallet_id (some w) = some w.id

-- `sellerWallet?.id`
abbrev pub wallet_of : Option ℕ → Store → Option ℕ
wallet_of none s = none
wallet_of (some user) s = wallet_id (find_wallet user s)
