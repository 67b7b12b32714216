-- ===== src/Orders/Rows.antt =====
-- Orders as the order service reads and writes them
-- (kahade-backend/src/core/order/order.repository.ts, order.service.ts). A row that is marked as
-- deleted is not found.
use rekberkan.Base.{
  ℕ, ◌+◌, Bool, true, false, Option, none, some, [], ◌∷◌, ◌++◌, is_some, is_id, ◌||◌, if◌then◌else◌,
}
use rekberkan.Base.Int.{ℤ, times, quot}
use rekberkan.Base.Table.{find_by}
use rekberkan.Store.{
  Store, Order, OrderStatus, OrderCategory, InitiatorRole, FeePayer, Action, ok, err, Error,
}
use rekberkan.Escrow.Rows.{find_order, update_order}

abbrev pub day : ℕ
day = 86_400_000

-- What the configuration sets: "platform.feePercentage", a whole number, and
-- "platform.inviteExpiryDays".
pub record PlatformConfig : Type 0 where
  pub fee_percentage : ℕ
  pub invite_expiry_days : ℕ

abbrev pub calculate_platform_fee : PlatformConfig → ℤ → ℤ
calculate_platform_fee c amount = quot (times amount c.fee_percentage) 100

abbrev pub unless_deleted : Option Order → Option Order
unless_deleted none = none
unless_deleted (some o) = if is_some o.deleted_at then none else some o

-- `findById`
abbrev pub find_by_id : ℕ → Store → Option Order
find_by_id id s = unless_deleted (find_order id s)

-- `findByInviteToken`
abbrev pub find_by_invite_token : ℕ → Store → Option Order
find_by_invite_token token s = unless_deleted (find_by Order.invite_token token s.orders)

-- The dates that `updateStatus` sets
abbrev pub stamp : ℕ → OrderStatus → Order → Order
stamp now OrderStatus.accepted o = record o { accepted_at = some now }
stamp now OrderStatus.paid o = record o { paid_at = some now }
stamp now OrderStatus.completed o = record o { completed_at = some now }
stamp now OrderStatus.cancelled o = record o { cancelled_at = some now }
stamp now OrderStatus.refunded o = record o { cancelled_at = some now }
stamp now OrderStatus.waiting_counterparty o = o
stamp now OrderStatus.pending_accept o = o
stamp now OrderStatus.disputed o = o

-- `updateStatus`, where `f` writes the additional data
unfoldable pub update_status : ℕ → ℕ → OrderStatus → (Order → Order) → Action Order
unfolding update_order
update_status now id status f =
    update_order id (λ o. stamp now status (f (record o { status = status })))

abbrev pub buyer_id : Order → Option ℕ
buyer_id o = elim o.initiator_role [
  | InitiatorRole.buyer ↦ some o.initiator_id
  | InitiatorRole.seller ↦ o.counterparty_id
]

abbrev pub seller_id : Order → Option ℕ
seller_id o = elim o.initiator_role [
  | InitiatorRole.buyer ↦ o.counterparty_id
  | InitiatorRole.seller ↦ some o.initiator_id
]

-- `initiatorId === userId || counterpartyId === userId`
abbrev pub is_party : ℕ → Order → Bool
is_party user o = is_id (some o.initiator_id) user || is_id o.counterparty_id user

abbrev pub is_waiting : OrderStatus → Bool
is_waiting OrderStatus.waiting_counterparty = true
is_waiting _ = false

abbrev pub is_pending : OrderStatus → Bool
is_pending OrderStatus.pending_accept = true
is_pending _ = false

abbrev pub is_accepted : OrderStatus → Bool
is_accepted OrderStatus.accepted = true
is_accepted _ = false

abbrev pub is_paid : OrderStatus → Bool
is_paid OrderStatus.paid = true
is_paid _ = false

abbrev pub is_completed : OrderStatus → Bool
is_completed OrderStatus.completed = true
is_completed _ = false

-- What a client sends to create an order
pub record CreateOrderDto : Type 0 where
  pub initiator_role : InitiatorRole
  pub title : ℕ
  pub description : ℕ
  pub category : OrderCategory
  pub amount_minor : ℤ
  pub fee_payer : FeePayer
  pub holding_period_days : ℕ
  pub custom_terms : Option ℕ

abbrev pub new_order : ℕ → ℕ → ℕ → CreateOrderDto → ℤ → ℕ → ℕ → Order
new_order id now user dto fee token expires = record {
  id = id;
  initiator_id = user;
  counterparty_id = none;
  initiator_role = dto.initiator_role;
  title = dto.title;
  description = dto.description;
  category = dto.category;
  amount_minor = dto.amount_minor;
  fee_payer = dto.fee_payer;
  platform_fee_minor = fee;
  holding_period_days = dto.holding_period_days;
  custom_terms = dto.custom_terms;
  status = OrderStatus.waiting_counterparty;
  invite_token = token;
  invite_expires_at = expires;
  accepted_at = none;
  paid_at = none;
  auto_release_at = none;
  completed_at = none;
  cancelled_at = none;
  deleted_at = none;
  created_at = now;
}

-- `create`: the identifier and the invite token are unique columns.
unfoldable pub insert_order : ℕ → ℕ → CreateOrderDto → ℤ → ℕ → ℕ → Action Order
insert_order now user dto fee token expires s =
    let o = new_order s.next_id now user dto fee token expires in
    if is_some (find_order s.next_id s) || is_some (find_by Order.invite_token token s.orders)
    then (err Error.unique_violation, s)
    else (ok o, record s { orders = s.orders ++ o ∷ []; next_id = s.next_id + 1 })
