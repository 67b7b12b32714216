-- ===== src/Disputes/Rows.antt =====
-- Disputes as the dispute service reads and writes them
-- (kahade-backend/src/core/dispute/dispute.service.ts, dispute.repository.ts), and `findOne`.
use rekberkan.Base.{ℕ, Bool, true, false, not, ◌||◌, Option, none, some, [], ◌∷◌, ◌++◌, ◌==◌}
use rekberkan.Base.Table.{find_by, update_by}
use rekberkan.Store.{
  Store, Order, OrderStatus, Dispute, DisputeStatus, TimelineAction, Action, ok, err, Error, ◌>>=◌,
  ◌>>◌, pure, gets, or_raise, raise_if, modify,
}
use rekberkan.Escrow.Rows.{find_order}
use rekberkan.Orders.Rows.{is_party}

abbrev pub response_deadline_hours : ℕ
response_deadline_hours = 48

abbrev pub appeal_deadline_days : ℕ
appeal_deadline_days = 7

abbrev pub find_dispute : ℕ → Store → Option Dispute
find_dispute id s = find_by Dispute.id id s.disputes

unfoldable pub update_dispute : ℕ → (Dispute → Dispute) → Action Dispute
update_dispute id f s = elim (find_dispute id s) [
  | none ↦ (err Error.record_not_found, s)
  | some d ↦ (ok (f d), record s { disputes = update_by Dispute.id id f s.disputes })
]

-- `disputeTimeline.create`
abbrev pub add_timeline : ℕ → TimelineAction → ℕ → Option ℕ → Action (Unit {0})
add_timeline id action user details = modify (λ s. record s {
  timeline =
      s.timeline
      ++ record { dispute_id = id; action = action; performed_by = user; details = details } ∷ [];
})

abbrev pub is_closed : DisputeStatus → Bool
is_closed DisputeStatus.closed = true
is_closed _ = false

abbrev pub is_opened : DisputeStatus → Bool
is_opened DisputeStatus.opened = true
is_opened _ = false

abbrev pub is_responded : DisputeStatus → Bool
is_responded DisputeStatus.responded = true
is_responded _ = false

abbrev pub is_decided : DisputeStatus → Bool
is_decided DisputeStatus.decided = true
is_decided _ = false

abbrev pub is_cancelled : OrderStatus → Bool
is_cancelled OrderStatus.cancelled = true
is_cancelled _ = false

-- Whether the order has a dispute that is not closed
abbrev pub is_disputed : Option Dispute → Bool
is_disputed none = false
is_disputed (some d) = not (is_closed d.status)

-- The check of `findOne` when a user is given: an order that is missing is let pass.
abbrev pub may_view : ℕ → Dispute → Option Order → Bool
may_view user d none = true
may_view user d (some o) = (d.opened_by == user) || is_party user o

unfoldable pub find_one : ℕ → ℕ → Action Dispute
find_one id user = do
  dispute ← or_raise Error.not_found (← gets (find_dispute id))
  order ← gets (find_order dispute.order_id)
  raise_if (not (may_view user dispute order)) Error.forbidden
  pure dispute

-- A write to the dispute with its entry of the timeline
unfoldable pub dispute_tx : ℕ → (Dispute → Dispute) → TimelineAction → ℕ → Option ℕ → Action Dispute
unfolding update_dispute
dispute_tx id f action user details = do
  updated ← update_dispute id f
  add_timeline id action user details
  pure updated
