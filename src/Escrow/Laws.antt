-- ===== src/Escrow/Laws.antt =====
-- The state machine and the permissions of kahade-backend/src/core/escrow/escrow.service.ts against
-- a description of their own: the edges of the machine, and the buyer and the seller of an order.
use rekberkan.Base.{ℕ, ◌≡◌, ◌↔◌, ◌⊎◌, refl, true, Option, some, arith, if◌then◌else◌}
use rekberkan.Store.{EscrowHoldStatus, Order, ok, err, Error}
use rekberkan.Escrow.Machine.{
  status, resolution, Resolution, EscrowAction, validate_escrow_transition,
  validate_actor_permission, is_buyer_role,
}

-- The moves of an escrow hold: out of the two open states to an end or into a dispute, and out of a
-- dispute to an end.
pub data EscrowEdge : EscrowHoldStatus → EscrowHoldStatus → Type 0 where
  release_active : EscrowEdge EscrowHoldStatus.active EscrowHoldStatus.released
  refund_active : EscrowEdge EscrowHoldStatus.active EscrowHoldStatus.refunded
  dispute_active : EscrowEdge EscrowHoldStatus.active EscrowHoldStatus.disputed
  release_held : EscrowEdge EscrowHoldStatus.held EscrowHoldStatus.released
  refund_held : EscrowEdge EscrowHoldStatus.held EscrowHoldStatus.refunded
  dispute_held : EscrowEdge EscrowHoldStatus.held EscrowHoldStatus.disputed
  adjust_disputed : EscrowEdge EscrowHoldStatus.disputed EscrowHoldStatus.adjusted
  release_disputed : EscrowEdge EscrowHoldStatus.disputed EscrowHoldStatus.released
  refund_disputed : EscrowEdge EscrowHoldStatus.disputed EscrowHoldStatus.refunded

ruleset edges = (
  release_active, refund_active, dispute_active, release_held, refund_held, dispute_held,
  adjust_disputed, release_disputed, refund_disputed,
)

to_edge :
    (a b : EscrowHoldStatus) → validate_escrow_transition a (status b) ≡ ok true → EscrowEdge a b
unfolding validate_escrow_transition
to_edge a b h = grind (arith, edges)

pub resolution_refused :
    (a : EscrowHoldStatus) (r : Resolution)
    → validate_escrow_transition a (resolution r) ≡ err (Error.invalid_transition a)
unfolding validate_escrow_transition
resolution_refused a r = ground arith

of_edge :
    {a b : EscrowHoldStatus} → EscrowEdge a b → validate_escrow_transition a (status b) ≡ ok true
unfolding validate_escrow_transition
of_edge release_active = refl
of_edge refund_active = refl
of_edge dispute_active = refl
of_edge release_held = refl
of_edge refund_held = refl
of_edge dispute_held = refl
of_edge adjust_disputed = refl
of_edge release_disputed = refl
of_edge refund_disputed = refl

-- `validateEscrowTransition` accepts exactly the moves of the machine, and never one to the text of an
-- admin's resolution.
pub validate_escrow_transition_iff :
    (a b : EscrowHoldStatus) (r : Resolution)
    → ((validate_escrow_transition a (status b) ≡ ok true) ↔ EscrowEdge a b)
      × (validate_escrow_transition a (resolution r) ≡ err (Error.invalid_transition a))
validate_escrow_transition_iff a b r = ((to_edge a b, of_edge), resolution_refused a r)

-- Who buys and who sells under an order.
abbrev pub buyer_of : Order → Option ℕ
buyer_of o = if is_buyer_role o.initiator_role then some o.initiator_id else o.counterparty_id

abbrev pub seller_of : Order → Option ℕ
seller_of o = if is_buyer_role o.initiator_role then o.counterparty_id else some o.initiator_id

-- Exactly the buyer may release, exactly the seller may refund, and exactly the two may dispute.
pub permission_iff :
    (o : Order) (actor : ℕ)
    → ((validate_actor_permission o actor EscrowAction.release ≡ ok true)
        ↔ (buyer_of o ≡ some actor))
      × ((validate_actor_permission o actor EscrowAction.refund ≡ ok true)
          ↔ (seller_of o ≡ some actor))
      × ((validate_actor_permission o actor EscrowAction.dispute ≡ ok true)
          ↔ ((buyer_of o ≡ some actor) ⊎ (seller_of o ≡ some actor)))
unfolding validate_actor_permission
permission_iff o actor = (
  (λ h. ground arith, λ h. ground arith),
  (λ h. ground arith, λ h. ground arith),
  (λ h. ground arith, λ h. ground arith),
)
