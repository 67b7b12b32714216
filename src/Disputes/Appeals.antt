-- ===== src/Disputes/Appeals.antt =====
-- For how long a decision of a dispute may be appealed
-- (kahade-backend/src/core/dispute/dispute.service.ts).
use rekberkan.Base.{
  ℕ, ◌+◌, ◌*◌, ◌≤◌, ◌≡◌, ◌≢◌, ◌↔◌, refl, true, false, Option, some, ltb, arith, inl, inr,
  Bool-cases,
}
use rekberkan.Store.{
  Store, Order, Dispute, DisputeStatus, TimelineAction, Result, ok, err, ◌>>◌, in_transaction,
}
use rekberkan.Escrow.Rows.{find_order}
use rekberkan.Orders.Rows.{day, is_party}
use rekberkan.Disputes.Rows.{find_dispute, dispute_tx, appeal_deadline_days}
use rekberkan.Disputes.Deciding.{ResolveDisputeDto, decide, resolve, appeal}
use rekberkan.Disputes.Decisions.{
  settle_order, resolved, update_dispute-eq, resolve-eq, find-decided, find-settled, not_closed,
}

-- Whether a call has returned
abbrev pub Returns : {A : Type 0} → Result A × Store → Type 0
Returns (ok a, t) = Unit
Returns (err e, t) = ⊥

dispute_tx-Returns :
    (id : ℕ) (f : Dispute → Dispute) (action : TimelineAction) (user : ℕ) (details : Option ℕ)
    (d : Dispute) (s : Store)
    → find_dispute id s ≡ some d
    → Returns (in_transaction (dispute_tx id f action user details) s)
unfolding dispute_tx
dispute_tx-Returns id f action user details d s e = rw (update_dispute-eq id f d s e) tt

-- An appeal of a decision, by a party, in time and too late
appeal_in_time :
    (later id user reason deadline : ℕ) (d : Dispute) (o : Order) (s : Store)
    → find_dispute id s ≡ some d
    → d.status ≡ DisputeStatus.decided
    → d.can_appeal ≡ true
    → d.appeal_deadline ≡ some deadline
    → find_order d.order_id s ≡ some o
    → is_party user o ≡ true
    → ltb deadline later ≡ false
    → Returns (appeal later id user reason s)
unfolding appeal
appeal_in_time later id user reason deadline d o s e p q r a u l =
    let k =
      dispute_tx-Returns id
        (λ d. record d { status = DisputeStatus.appealed; appeal_count = d.appeal_count + 1 })
        TimelineAction.was_appealed user (some reason) d s e in
    rw (e, p, q, r, l, a, u) k

appeal_too_late :
    (later id user reason deadline : ℕ) (d : Dispute) (s : Store)
    → find_dispute id s ≡ some d
    → d.status ≡ DisputeStatus.decided
    → d.can_appeal ≡ true
    → d.appeal_deadline ≡ some deadline
    → ltb deadline later ≡ true
    → Returns (appeal later id user reason s)
    → ⊥
unfolding appeal
appeal_too_late later id user reason deadline d s e p q r l h = rw (e, p, q, r, l) at h

timely : (a b : ℕ) → ltb a b ≡ false → b ≤ a
timely a b h = ground arith

untimely : (a b : ℕ) → ltb a b ≡ true → b ≤ a → ⊥
untimely a b h p = ground arith

-- After `resolve` of a dispute that is not closed, of an order that is there, an appeal by a party of
-- the order returns exactly when it comes within seven days of the decision.
pub resolve-then-appeal :
    (now later id admin user reason : ℕ) (dto : ResolveDisputeDto) (d : Dispute) (o : Order)
    (s : Store)
    → find_dispute id s ≡ some d
    → d.status ≢ DisputeStatus.closed
    → find_order d.order_id s ≡ some o
    → is_party user o ≡ true
    → Returns ((resolve now id admin dto >> appeal later id user reason) s)
      ↔ (later ≤ now + appeal_deadline_days * day)
resolve-then-appeal now later id admin user reason dto d o s e c a u =
    let s1 = resolved now id admin dto d.order_id s in
    let d1 = decide now dto d in
    let e1 = find-decided now id admin dto d s e in
    let a1 = find-settled now id admin d.order_id dto o s a in
    let deadline = now + appeal_deadline_days * day in
    rw (resolve-eq now id admin dto d o s e (not_closed d.status c) a)
      (elim (Bool-cases (ltb deadline later)) [
        | inl l ↦ (
          (λ h. absurd (appeal_too_late later id user reason deadline d1 s1 e1 refl refl refl l h)),
          (λ h. absurd (untimely deadline later l h)),
        )
        | inr l ↦ (
          (λ h. timely deadline later l),
          (λ h.
              appeal_in_time later id user reason deadline d1 (settle_order dto o) s1 e1 refl refl
                refl a1 u l),
        )
      ])
