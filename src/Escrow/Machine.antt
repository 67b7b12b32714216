-- ===== src/Escrow/Machine.antt =====
-- The state machines of escrow holds and orders, and who may move them
-- (kahade-backend/src/core/escrow/escrow.service.ts).
use rekberkan.Base.{
  ℕ, Bool, true, false, not, List, [], ◌∷◌, if◌then◌else◌, ◌==◌, ◌&&◌, ◌||◌, is_id,
}
use rekberkan.Store.{EscrowHoldStatus, OrderStatus, Order, InitiatorRole, Result, ok, err, Error}

-- The `resolution` that an admin names.
pub data Resolution : Type 0 where
  buyer_wins seller_wins split : Resolution

-- A text in the place of an escrow status: `resolution as EscrowHoldStatus` puts a resolution there.
pub data StatusText : Type 0 where
  status : EscrowHoldStatus → StatusText
  resolution : Resolution → StatusText

abbrev pub escrow_code : EscrowHoldStatus → ℕ
escrow_code EscrowHoldStatus.active = 0
escrow_code EscrowHoldStatus.held = 1
escrow_code EscrowHoldStatus.released = 2
escrow_code EscrowHoldStatus.refunded = 3
escrow_code EscrowHoldStatus.disputed = 4
escrow_code EscrowHoldStatus.adjusted = 5

abbrev pub order_code : OrderStatus → ℕ
order_code OrderStatus.waiting_counterparty = 0
order_code OrderStatus.pending_accept = 1
order_code OrderStatus.accepted = 2
order_code OrderStatus.paid = 3
order_code OrderStatus.completed = 4
order_code OrderStatus.cancelled = 5
order_code OrderStatus.disputed = 6
order_code OrderStatus.refunded = 7

-- `===` on the texts
abbrev pub is_text : EscrowHoldStatus → StatusText → Bool
is_text a (status b) = escrow_code a == escrow_code b
is_text a (resolution r) = false

-- `ESCROW_STATE_MACHINE`
unfoldable pub escrow_state_machine : EscrowHoldStatus → List EscrowHoldStatus
escrow_state_machine EscrowHoldStatus.active =
    EscrowHoldStatus.released ∷ EscrowHoldStatus.refunded ∷ EscrowHoldStatus.disputed ∷ []
escrow_state_machine EscrowHoldStatus.held =
    EscrowHoldStatus.released ∷ EscrowHoldStatus.refunded ∷ EscrowHoldStatus.disputed ∷ []
escrow_state_machine EscrowHoldStatus.disputed =
    EscrowHoldStatus.adjusted ∷ EscrowHoldStatus.released ∷ EscrowHoldStatus.refunded ∷ []
escrow_state_machine EscrowHoldStatus.released = []
escrow_state_machine EscrowHoldStatus.refunded = []
escrow_state_machine EscrowHoldStatus.adjusted = []

-- `ORDER_STATE_MACHINE`
unfoldable pub order_state_machine : OrderStatus → List OrderStatus
order_state_machine OrderStatus.waiting_counterparty =
    OrderStatus.pending_accept ∷ OrderStatus.cancelled ∷ []
order_state_machine OrderStatus.pending_accept = OrderStatus.accepted ∷ OrderStatus.cancelled ∷ []
order_state_machine OrderStatus.accepted = OrderStatus.paid ∷ OrderStatus.cancelled ∷ []
order_state_machine OrderStatus.paid =
    OrderStatus.completed ∷ OrderStatus.refunded ∷ OrderStatus.disputed ∷ []
order_state_machine OrderStatus.completed = []
order_state_machine OrderStatus.cancelled = []
order_state_machine OrderStatus.refunded = []
order_state_machine OrderStatus.disputed = OrderStatus.completed ∷ OrderStatus.refunded ∷ []

-- `allowedTransitions.includes(targetStatus)`
unfoldable pub includes : StatusText → List EscrowHoldStatus → Bool
includes t [] = false
includes t (x ∷ xs) = is_text x t || includes t xs

unfoldable pub includes_order : OrderStatus → List OrderStatus → Bool
includes_order t [] = false
includes_order t (x ∷ xs) = order_code x == order_code t || includes_order t xs

-- `validateEscrowTransition`
unfoldable pub validate_escrow_transition : EscrowHoldStatus → StatusText → Result Bool
unfolding escrow_state_machine includes
validate_escrow_transition current target =
    if not (includes target (escrow_state_machine current))
    then err (Error.invalid_transition current)
    else ok true

-- `validateOrderTransition`
unfoldable pub validate_order_transition : OrderStatus → OrderStatus → Result Bool
unfolding order_state_machine includes_order
validate_order_transition current target =
    if not (includes_order target (order_state_machine current))
    then err (Error.invalid_order_transition current target)
    else ok true

pub data EscrowAction : Type 0 where
  release refund dispute resolve unknown : EscrowAction

abbrev pub is_buyer_role : InitiatorRole → Bool
is_buyer_role InitiatorRole.buyer = true
is_buyer_role InitiatorRole.seller = false

-- `validateActorPermission`
unfoldable pub validate_actor_permission : Order → ℕ → EscrowAction → Result Bool
validate_actor_permission order actor EscrowAction.release =
    if is_buyer_role order.initiator_role && not (order.initiator_id == actor)
    then err (Error.unauthorized actor)
    else if not (is_buyer_role order.initiator_role) && not (is_id order.counterparty_id actor)
    then err (Error.unauthorized actor)
    else ok true
validate_actor_permission order actor EscrowAction.refund =
    if not (is_buyer_role order.initiator_role) && not (order.initiator_id == actor)
    then err (Error.unauthorized actor)
    else if is_buyer_role order.initiator_role && not (is_id order.counterparty_id actor)
    then err (Error.unauthorized actor)
    else ok true
validate_actor_permission order actor EscrowAction.dispute =
    if not (order.initiator_id == actor) && not (is_id order.counterparty_id actor)
    then err (Error.unauthorized actor)
    else ok true
validate_actor_permission order actor EscrowAction.resolve = ok true
validate_actor_permission order actor EscrowAction.unknown = err Error.bad_request
