-- ===== src/Disputes/Deciding.antt =====
-- `resolve`, `appeal`, `closeAppealWindow`, the evidence and the messages of `DisputeService`
-- (kahade-backend/src/core/dispute/dispute.service.ts). `now` is the date that a call reads; `_tx` are the
-- bodies of the `$transaction` blocks.
use rekberkan.Base.{
  if◌then◌else◌, ℕ, ◌+◌, ◌*◌, Bool, true, false, not, ◌&&◌, ◌||◌, Option, none, some, List, [], ◌∷◌,
  ◌++◌, ltb, ◌==◌,
}
use rekberkan.Base.Int.{ℤ, 0ℤ, eqb_ℤ}
use rekberkan.Base.Table.{filter_rows}
use rekberkan.Store.{
  Order, OrderStatus, Dispute, DisputeStatus, DisputeDecision, DisputeTimeline, TimelineAction,
  Action, Error, ◌>>=◌, ◌>>◌, pure, gets, or_raise, raise_if, modify, in_transaction,
}
use rekberkan.Escrow.Rows.{find_order, update_order}
use rekberkan.Orders.Rows.{day, is_party}
use rekberkan.Disputes.Rows.{
  find_dispute, update_dispute, add_timeline, dispute_tx, is_closed, is_decided, find_one,
  appeal_deadline_days,
}

pub record ResolveDisputeDto : Type 0 where
  pub decision : DisputeDecision
  pub seller_amount_minor : Option ℤ
  pub buyer_refund_minor : Option ℤ
  pub resolution_notes : ℕ

abbrev pub status_after : DisputeDecision → OrderStatus
status_after DisputeDecision.release_all_to_seller = OrderStatus.completed
status_after DisputeDecision.refund_all_to_buyer = OrderStatus.refunded
status_after DisputeDecision.split_settlement = OrderStatus.completed
status_after DisputeDecision.cancel_void = OrderStatus.cancelled
status_after _ = OrderStatus.completed

-- An amount that is missing or zero is written as null.
abbrev pub given_amount : Option ℤ → Option ℤ
given_amount none = none
given_amount (some a) = if eqb_ℤ a 0ℤ then none else some a

abbrev pub decide : ℕ → ResolveDisputeDto → Dispute → Dispute
decide now dto d = record d {
  status = DisputeStatus.decided;
  decision = dto.decision;
  seller_amount_minor = given_amount dto.seller_amount_minor;
  buyer_refund_minor = given_amount dto.buyer_refund_minor;
  decided_at = some now;
  appeal_deadline = some (now + appeal_deadline_days * day);
  can_appeal = true;
}

unfoldable pub resolve_tx : ℕ → ℕ → ℕ → ResolveDisputeDto → ℕ → Action Dispute
unfolding update_dispute update_order
resolve_tx now id admin dto order = do
  updated ← update_dispute id (decide now dto)
  update_order order (λ o. record o { status = status_after dto.decision })
  add_timeline id TimelineAction.was_decided admin (some dto.resolution_notes)
  pure updated

unfoldable pub resolve : ℕ → ℕ → ℕ → ResolveDisputeDto → Action Dispute
unfolding resolve_tx
resolve now id admin dto = do
  dispute ← or_raise Error.not_found (← gets (find_dispute id))
  raise_if (is_closed dispute.status) Error.bad_request
  in_transaction (resolve_tx now id admin dto dispute.order_id)

abbrev pub is_past : Option ℕ → ℕ → Bool
is_past none now = false
is_past (some deadline) now = ltb deadline now

abbrev pub is_party_of : ℕ → Option Order → Bool
is_party_of user none = false
is_party_of user (some o) = is_party user o

unfoldable pub appeal : ℕ → ℕ → ℕ → ℕ → Action Dispute
unfolding dispute_tx
appeal now id user reason = do
  dispute ← or_raise Error.not_found (← gets (find_dispute id))
  raise_if (not (is_decided dispute.status)) Error.bad_request
  raise_if (not dispute.can_appeal) Error.bad_request
  raise_if (is_past dispute.appeal_deadline now) Error.bad_request
  order ← gets (find_order dispute.order_id)
  raise_if (not (is_party_of user order)) Error.forbidden
  in_transaction (
      dispute_tx id
        (λ d. record d { status = DisputeStatus.appealed; appeal_count = d.appeal_count + 1 })
        TimelineAction.was_appealed user (some reason))

unfoldable pub close_appeal_window : ℕ → Action Dispute
unfolding update_dispute
close_appeal_window id =
    update_dispute id (λ d. record d { can_appeal = false; status = DisputeStatus.closed })

unfoldable pub submit_evidence : ℕ → ℕ → List ℕ → ℕ → Action (Unit {0})
submit_evidence id user urls description = do
  dispute ← or_raise Error.not_found (← gets (find_dispute id))
  raise_if (is_closed dispute.status || is_decided dispute.status) Error.bad_request
  modify (λ s. record s {
    evidences =
        s.evidences
        ++ record {
          dispute_id = id;
          submitted_by = user;
          file_urls = urls;
          description = description;
        }
          ∷ [];
  })

abbrev pub is_message : TimelineAction → Bool
is_message TimelineAction.message_sent = true
is_message _ = false

unfoldable pub get_messages : ℕ → ℕ → Action (List DisputeTimeline)
unfolding find_one
get_messages id user = do
  dispute ← find_one id user
  gets (λ s. filter_rows (λ m. (m.dispute_id == dispute.id) && is_message m.action) s.timeline)

unfoldable pub add_message : ℕ → ℕ → ℕ → Action (Unit {0})
unfolding find_one
add_message id user message = do
  dispute ← find_one id user
  order ← or_raise Error.not_found (← gets (find_order dispute.order_id))
  raise_if (not (is_party user order)) Error.forbidden
  add_timeline id TimelineAction.message_sent user (some message)
