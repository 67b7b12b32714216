-- ===== src/Disputes/Opening.antt =====
-- `create`, `respond`, `escalate` and `assignArbitrator` of `DisputeService`
-- (kahade-backend/src/core/dispute/dispute.service.ts). `now` is the date that a call reads; `_tx` are the
-- bodies of the `$transaction` blocks.
use rekberkan.Base.{ℕ, ◌+◌, ◌*◌, Bool, not, ◌&&◌, ◌||◌, Option, none, some, is_id, ◌==◌}
use rekberkan.Base.Table.{find_by}
use rekberkan.Store.{
  Order, OrderStatus, Dispute, DisputeStatus, TimelineAction, Action, Error, ◌>>=◌, ◌>>◌, pure,
  gets, or_raise, raise_if, in_transaction,
}
use rekberkan.Escrow.Rows.{find_order, update_order}
use rekberkan.Escrow.Dispute.{insert_dispute}
use rekberkan.Orders.Rows.{is_party, is_completed}
use rekberkan.Disputes.Rows.{
  find_dispute, add_timeline, dispute_tx, is_opened, is_responded, is_cancelled, is_disputed,
  response_deadline_hours,
}

unfoldable pub create_tx : ℕ → ℕ → ℕ → Action Dispute
unfolding insert_dispute update_order
create_tx now user order = do
  dispute ← insert_dispute order user (some (now + response_deadline_hours * 60 * 60 * 1000))
  update_order order (λ o. record o { status = OrderStatus.disputed })
  add_timeline dispute.id TimelineAction.was_opened user none
  pure dispute

-- `create`
unfoldable pub create : ℕ → ℕ → ℕ → Action Dispute
unfolding create_tx
create now user id = do
  order ← or_raise Error.not_found (← gets (find_order id))
  raise_if (not (is_party user order)) Error.forbidden
  raise_if (is_completed order.status || is_cancelled order.status) Error.bad_request
  existing ← gets (λ s. find_by Dispute.order_id id s.disputes)
  raise_if (is_disputed existing) Error.bad_request
  in_transaction (create_tx now user id)

abbrev pub is_counterparty : ℕ → Dispute → Order → Bool
is_counterparty user d o =
    ((o.initiator_id == d.opened_by) && is_id o.counterparty_id user)
    || (is_id o.counterparty_id d.opened_by && (o.initiator_id == user))

unfoldable pub respond : ℕ → ℕ → ℕ → Action Dispute
unfolding dispute_tx
respond id user response = do
  dispute ← or_raise Error.not_found (← gets (find_dispute id))
  raise_if (not (is_opened dispute.status)) Error.bad_request
  order ← or_raise Error.not_found (← gets (find_order dispute.order_id))
  raise_if (not (is_counterparty user dispute order)) Error.forbidden
  in_transaction (
      dispute_tx id (λ d. record d { status = DisputeStatus.responded })
        TimelineAction.was_responded user (some response))

unfoldable pub escalate : ℕ → ℕ → ℕ → ℕ → Option ℕ → Action Dispute
unfolding dispute_tx
escalate now id admin to comment = do
  dispute ← or_raise Error.not_found (← gets (find_dispute id))
  raise_if (not (is_opened dispute.status || is_responded dispute.status)) Error.bad_request
  in_transaction (
      dispute_tx id
        (λ d. record d {
          status = DisputeStatus.escalated;
          escalated_at = some now;
          escalated_to = some to;
        })
        TimelineAction.was_escalated admin comment)

unfoldable pub assign_arbitrator : ℕ → ℕ → ℕ → Action Dispute
unfolding dispute_tx
assign_arbitrator id admin arbitrator = do
  dispute ← or_raise Error.not_found (← gets (find_dispute id))
  in_transaction (
      dispute_tx id
        (λ d. record d {
          status = DisputeStatus.under_arbitration;
          arbitrator_id = some arbitrator;
        })
        TimelineAction.arbitrator_assigned admin (some arbitrator))
