-- ===== src/Transactions/Closing.antt =====
-- The rest of `TransactionService` (kahade-backend/src/core/transaction/transaction.service.ts):
-- `dispute`, `cancel`, `rate`, `updateStatus`, `getTimeline`, `getMessages`, `sendMessage`.
use rekberkan.Base.{
  ℕ, Bool, true, false, not, Option, none, some, List, [], ◌∷◌, ◌++◌, is_some, if◌then◌else◌, ◌==◌,
}
use rekberkan.Base.Table.{find_first, filter_rows}
use rekberkan.Store.{
  Order, OrderStatus, OrderComment, Action, Error, ◌>>=◌, ◌>>◌, pure, gets, or_raise, raise_if,
}
use rekberkan.Escrow.Rows.{find_order, update_order}
use rekberkan.Escrow.Dispute.{insert_dispute}
use rekberkan.Orders.Rows.{is_party, is_paid, is_completed}
use rekberkan.Orders.Comments.{insert_comment}
use rekberkan.Transactions.Rows.{is_rating, insert_rating}
use rekberkan.Transactions.Opening.{cancel_row}

unfoldable pub dispute_transaction : ℕ → ℕ → Action Order
unfolding insert_dispute update_order
dispute_transaction user id = do
  order ← or_raise Error.not_found (← gets (find_order id))
  raise_if (not (is_party user order)) Error.forbidden
  raise_if (not (is_paid order.status)) Error.bad_request
  insert_dispute id user none
  update_order id (λ o. record o { status = OrderStatus.disputed })

unfoldable pub cancel_transaction : ℕ → ℕ → ℕ → Action Order
unfolding update_order
cancel_transaction now user id = do
  order ← or_raise Error.not_found (← gets (find_order id))
  raise_if (not (is_party user order)) Error.forbidden
  raise_if (is_completed order.status) Error.bad_request
  raise_if (is_paid order.status) Error.bad_request
  update_order id (cancel_row now)

abbrev pub other_party : ℕ → Order → Option ℕ
other_party user o = if o.initiator_id == user then o.counterparty_id else some o.initiator_id

unfoldable pub rate_transaction : ℕ → ℕ → ℕ → Option ℕ → Action (Unit {0})
unfolding insert_rating
rate_transaction user id score comment = do
  order ← or_raise Error.not_found (← gets (find_order id))
  raise_if (not (is_party user order)) Error.forbidden
  raise_if (not (is_completed order.status)) Error.bad_request
  rated ← or_raise Error.bad_request (other_party user order)
  existing ← gets (λ s. find_first (is_rating id user) s.ratings)
  raise_if (is_some existing) Error.bad_request
  insert_rating (record {
    order_id = id;
    from_user_id = user;
    to_user_id = rated;
    score = score;
    review = comment;
  })
  pure tt

-- `validTransitions`
abbrev pub is_transition : OrderStatus → OrderStatus → Bool
is_transition OrderStatus.waiting_counterparty OrderStatus.pending_accept = true
is_transition OrderStatus.waiting_counterparty OrderStatus.cancelled = true
is_transition OrderStatus.pending_accept OrderStatus.accepted = true
is_transition OrderStatus.pending_accept OrderStatus.cancelled = true
is_transition OrderStatus.accepted OrderStatus.paid = true
is_transition OrderStatus.accepted OrderStatus.cancelled = true
is_transition OrderStatus.paid OrderStatus.completed = true
is_transition OrderStatus.paid OrderStatus.disputed = true
is_transition OrderStatus.paid OrderStatus.refunded = true
is_transition OrderStatus.disputed OrderStatus.completed = true
is_transition OrderStatus.disputed OrderStatus.refunded = true
is_transition _ _ = false

unfoldable pub update_transaction_status : ℕ → ℕ → OrderStatus → Action Order
unfolding update_order
update_transaction_status user id st = do
  order ← or_raise Error.not_found (← gets (find_order id))
  raise_if (not (is_party user order)) Error.forbidden
  raise_if (not (is_transition order.status st)) Error.bad_request
  update_order id (λ o. record o { status = st })

-- The events of `getTimeline`
pub data TimelineEvent : Type 0 where
  was_created was_accepted was_paid was_completed was_cancelled : TimelineEvent

abbrev pub event_at : TimelineEvent → Option ℕ → List (TimelineEvent × ℕ)
event_at e none = []
event_at e (some at) = (e, at) ∷ []

abbrev pub timeline_of : Order → List (TimelineEvent × ℕ)
timeline_of o =
    (TimelineEvent.was_created, o.created_at) ∷ event_at TimelineEvent.was_accepted o.accepted_at
    ++ event_at TimelineEvent.was_paid o.paid_at
    ++ event_at TimelineEvent.was_completed o.completed_at
    ++ event_at TimelineEvent.was_cancelled o.cancelled_at

unfoldable pub get_timeline : ℕ → ℕ → Action (List (TimelineEvent × ℕ))
get_timeline id user = do
  order ← or_raise Error.not_found (← gets (find_order id))
  raise_if (not (is_party user order)) Error.forbidden
  pure (timeline_of order)

-- The comments of the order, in the order of their creation, also those marked as deleted
unfoldable pub get_transaction_messages : ℕ → ℕ → Action (List OrderComment)
get_transaction_messages id user = do
  order ← or_raise Error.not_found (← gets (find_order id))
  raise_if (not (is_party user order)) Error.forbidden
  gets (λ s. filter_rows (λ (c : OrderComment). c.order_id == id) s.comments)

unfoldable pub send_message : ℕ → ℕ → ℕ → Action OrderComment
unfolding insert_comment
send_message id user message = do
  order ← or_raise Error.not_found (← gets (find_order id))
  raise_if (not (is_party user order)) Error.forbidden
  insert_comment id user message
