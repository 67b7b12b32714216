-- ===== src/Orders/Invites.antt =====
-- The operations of `OrderService` before payment (kahade-backend/src/core/order/order.service.ts):
-- `createOrder`, `getOrderById`, `getOrderByInviteToken`, `updateOrder`, `acceptOrder`,
-- `resendInvite`. `now` is the date that a call reads and `token` the invite token that it makes.
use rekberkan.Base.{
  ℕ, ◌+◌, ◌-◌, ◌*◌, Bool, true, false, not, ◌&&◌, ◌||◌, Option, none, some, is_some, get_or,
  if◌then◌else◌, ltb, leb, ◌==◌,
}
use rekberkan.Base.Int.{ℤ, 0ℤ, eqb_ℤ}
use rekberkan.Base.Table.{find_first, find_by}
use rekberkan.Store.{
  Store, Order, OrderStatus, OrderCategory, InitiatorRole, Action, Error, ◌>>=◌, ◌>>◌, pure, gets,
  or_raise, raise_if, existing_or,
}
use rekberkan.Escrow.Rows.{update_order}
use rekberkan.Orders.Rows.{
  day, PlatformConfig, calculate_platform_fee, find_by_id, find_by_invite_token, update_status,
  is_party, is_waiting, is_pending, CreateOrderDto, insert_order,
}

-- The order of the last five minutes with the same title and amount, looked for when the client
-- has sent an idempotency key.
abbrev pub recent_duplicate : ℕ → ℕ → CreateOrderDto → Bool → Store → Option Order
recent_duplicate now user dto false s = none
recent_duplicate now user dto true s =
    find_first
      (λ o.
        (o.initiator_id == user)
        && (o.title == dto.title)
        && eqb_ℤ o.amount_minor dto.amount_minor
        && leb (now - 300_000) o.created_at)
      s.orders

abbrev pub expiry : PlatformConfig → ℕ → ℕ
expiry c now = now + c.invite_expiry_days * day

unfoldable pub create_order : PlatformConfig → ℕ → ℕ → ℕ → CreateOrderDto → Bool → Action Order
unfolding insert_order
create_order c now token user dto has_key = do
  existing ← gets (recent_duplicate now user dto has_key)
  existing_or existing
      (insert_order now user dto (calculate_platform_fee c dto.amount_minor) token (expiry c now))

unfoldable pub get_order_by_id : ℕ → ℕ → Action Order
get_order_by_id user id = do
  order ← or_raise Error.not_found (← gets (find_by_id id))
  raise_if (not (is_party user order)) Error.forbidden
  pure order

-- What the preview of an invite shows, but the number of the order and the profile of its initiator
pub record OrderPreview : Type 0 where
  pub title : ℕ
  pub description : ℕ
  pub category : OrderCategory
  pub amount_minor : ℤ
  pub initiator_role : InitiatorRole
  pub holding_period_days : ℕ
  pub custom_terms : Option ℕ
  pub expires_at : ℕ

abbrev pub preview_of : Order → OrderPreview
preview_of o = record {
  title = o.title;
  description = o.description;
  category = o.category;
  amount_minor = o.amount_minor;
  initiator_role = o.initiator_role;
  holding_period_days = o.holding_period_days;
  custom_terms = o.custom_terms;
  expires_at = o.invite_expires_at;
}

unfoldable pub get_order_by_invite_token : ℕ → ℕ → Action OrderPreview
get_order_by_invite_token now token = do
  order ← or_raise Error.not_found (← gets (find_by_invite_token token))
  raise_if (ltb order.invite_expires_at now) Error.bad_request
  raise_if (not (is_waiting order.status)) Error.bad_request
  pure (preview_of order)

-- `UpdateOrderDto`: a field that is not sent, or that holds an empty text, is none.
pub record UpdateOrderDto : Type 0 where
  pub title : Option ℕ
  pub description : Option ℕ
  pub category : Option OrderCategory
  pub custom_terms : Option ℕ
  pub amount_minor : Option ℤ
  pub holding_period_days : Option ℕ

-- The custom terms are written whenever they are sent.
abbrev pub sent_or : Option ℕ → Option ℕ → Option ℕ
sent_or none old = old
sent_or (some new) old = some new

abbrev pub edit_texts : UpdateOrderDto → Order → Order
edit_texts dto o = record o {
  title = get_or dto.title o.title;
  description = get_or dto.description o.description;
  category = get_or dto.category o.category;
  custom_terms = sent_or dto.custom_terms o.custom_terms;
}

-- An amount or a period of zero counts as not sent.
abbrev pub edit_amount : PlatformConfig → Option ℤ → Order → Order
edit_amount c none o = o
edit_amount c (some amount) o =
    if eqb_ℤ amount 0ℤ
    then o
    else record o { amount_minor = amount; platform_fee_minor = calculate_platform_fee c amount }

abbrev pub edit_period : Option ℕ → Order → Order
edit_period none o = o
edit_period (some days) o = if days == 0 then o else record o { holding_period_days = days }

abbrev pub edited : PlatformConfig → UpdateOrderDto → Bool → Order → Order
edited c dto true o =
    edit_period dto.holding_period_days (edit_amount c dto.amount_minor (edit_texts dto o))
edited c dto false o = edit_texts dto o

-- `updateOrder`
unfoldable pub edit_order : PlatformConfig → ℕ → ℕ → UpdateOrderDto → Action Order
unfolding update_order
edit_order c user id dto = do
  order ← or_raise Error.not_found (← gets (find_by_id id))
  raise_if (not (order.initiator_id == user)) Error.forbidden
  raise_if (not (is_waiting order.status || is_pending order.status)) Error.bad_request
  update_order id (edited c dto (is_waiting order.status))

unfoldable pub accept_order : ℕ → ℕ → ℕ → Action Order
unfolding update_status
accept_order now user token = do
  order ← or_raise Error.not_found (← gets (find_by_invite_token token))
  raise_if (ltb order.invite_expires_at now) Error.bad_request
  raise_if (not (is_waiting order.status)) Error.conflicting
  raise_if (order.initiator_id == user) Error.bad_request
  update_status now order.id OrderStatus.pending_accept
      (λ o. record o { counterparty_id = some user })

-- `resendInvite`: the invite token is a unique column.
unfoldable pub resend_invite : PlatformConfig → ℕ → ℕ → ℕ → ℕ → Action Order
unfolding update_order
resend_invite c now token user id = do
  order ← or_raise Error.not_found (← gets (find_by_id id))
  raise_if (not (order.initiator_id == user)) Error.forbidden
  raise_if (not (is_waiting order.status)) Error.bad_request
  taken ← gets (λ s. find_by Order.invite_token token s.orders)
  raise_if (is_some taken) Error.unique_violation
  update_order id (λ o. record o { invite_token = token; invite_expires_at = expiry c now })
