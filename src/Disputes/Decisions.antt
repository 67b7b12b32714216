-- ===== src/Disputes/Decisions.antt =====
-- What a decision of a dispute does (kahade-backend/src/core/dispute/dispute.service.ts).
use rekberkan.Base.{ℕ, ◌≡◌, ◌≢◌, refl, false, some, [], ◌∷◌, ◌++◌, arith, eq→==}
use rekberkan.Base.Table.{update_by, find_by-update_by}
use rekberkan.Store.{Store, Order, OrderStatus, Dispute, DisputeStatus, TimelineAction, ok, ◌>>◌}
use rekberkan.Escrow.Rows.{find_order, update_order}
use rekberkan.Disputes.Rows.{find_dispute, update_dispute, is_closed}
use rekberkan.Disputes.Deciding.{ResolveDisputeDto, status_after, decide, resolve_tx, resolve}

abbrev pub settle_order : ResolveDisputeDto → Order → Order
settle_order dto o = record o { status = status_after dto.decision }

-- The tables after a decision
abbrev pub resolved : ℕ → ℕ → ℕ → ResolveDisputeDto → ℕ → Store → Store
resolved now id admin dto order s = record s {
  disputes = update_by Dispute.id id (decide now dto) s.disputes;
  orders = update_by Order.id order (settle_order dto) s.orders;
  timeline =
      s.timeline
      ++ record {
        dispute_id = id;
        action = TimelineAction.was_decided;
        performed_by = admin;
        details = some dto.resolution_notes;
      }
        ∷ [];
}

pub update_dispute-eq :
    (id : ℕ) (f : Dispute → Dispute) (d : Dispute) (s : Store)
    → find_dispute id s ≡ some d
    → update_dispute id f s
      ≡ (ok (f d), record s { disputes = update_by Dispute.id id f s.disputes })
unfolding update_dispute
update_dispute-eq id f d s e = rw (update_dispute, e) refl

update_order-eq :
    (id : ℕ) (f : Order → Order) (o : Order) (s : Store)
    → find_order id s ≡ some o
    → update_order id f s ≡ (ok (f o), record s { orders = update_by Order.id id f s.orders })
unfolding update_order
update_order-eq id f o s a = rw (update_order, a) refl

resolve_tx-eq :
    (now id admin order : ℕ) (dto : ResolveDisputeDto) (d : Dispute) (o : Order) (s : Store)
    → find_dispute id s ≡ some d
    → find_order order s ≡ some o
    → resolve_tx now id admin dto order s
      ≡ (ok (decide now dto d), resolved now id admin dto order s)
unfolding resolve_tx
resolve_tx-eq now id admin order dto d o s e a =
    let s1 = record s { disputes = update_by Dispute.id id (decide now dto) s.disputes } in
    rw
      (update_dispute-eq id (decide now dto) d s e, update_order-eq order (settle_order dto) o s1 a)
      refl

pub resolve-eq :
    (now id admin : ℕ) (dto : ResolveDisputeDto) (d : Dispute) (o : Order) (s : Store)
    → find_dispute id s ≡ some d
    → is_closed d.status ≡ false
    → find_order d.order_id s ≡ some o
    → resolve now id admin dto s ≡ (ok (decide now dto d), resolved now id admin dto d.order_id s)
unfolding resolve
resolve-eq now id admin dto d o s e c a =
    rw (e, c, resolve_tx-eq now id admin d.order_id dto d o s e a) refl

pub find-decided :
    (now id admin : ℕ) (dto : ResolveDisputeDto) (d : Dispute) (s : Store)
    → find_dispute id s ≡ some d
    → find_dispute id (resolved now id admin dto d.order_id s) ≡ some (decide now dto d)
find-decided now id admin dto d s e =
    rw
      (
        find_by-update_by Dispute.id id id (decide now dto) s.disputes (λ _. refl),
        eq→== id id refl,
        e,
      )
      refl

pub find-settled :
    (now id admin order : ℕ) (dto : ResolveDisputeDto) (o : Order) (s : Store)
    → find_order order s ≡ some o
    → find_order order (resolved now id admin dto order s) ≡ some (settle_order dto o)
find-settled now id admin order dto o s a =
    rw
      (
        find_by-update_by Order.id order order (settle_order dto) s.orders (λ _. refl),
        eq→== order order refl,
        a,
      )
      refl

pub not_closed : (st : DisputeStatus) → st ≢ DisputeStatus.closed → is_closed st ≡ false
not_closed st h = ground arith

-- The order that a decision leaves, and all that it does not touch
abbrev pub LeavesOrder : ℕ → Order → OrderStatus → Store → Store → Type 0
LeavesOrder order o st s t =
    (find_order order t ≡ some (record o { status = st }))
    × (t.escrows ≡ s.escrows)
    × (t.wallets ≡ s.wallets)
    × (t.journals ≡ s.journals)

-- A dispute that is not closed, of an order that is there, is decided twice: both calls of `resolve`
-- return, the second decision is what the dispute and the order are left with, and the escrows, the
-- wallets and the ledger are as they were before the first.
pub resolve-then-resolve :
    (now later id admin : ℕ) (dto dto' : ResolveDisputeDto) (d : Dispute) (o : Order) (s : Store)
    → find_dispute id s ≡ some d
    → d.status ≢ DisputeStatus.closed
    → find_order d.order_id s ≡ some o
    → (r : Dispute) × (t : Store) × ((resolve now id admin dto >> resolve later id admin dto') s
        ≡ (ok r, t))
      × (r.decision ≡ dto'.decision)
      × LeavesOrder d.order_id o (status_after dto'.decision) s t
resolve-then-resolve now later id admin dto dto' d o s e c a =
    let s1 = resolved now id admin dto d.order_id s in
    let e1 = find-decided now id admin dto d s e in
    let a1 = find-settled now id admin d.order_id dto o s a in
    (
      decide later dto' (decide now dto d),
      resolved later id admin dto' d.order_id s1,
      rw (resolve-eq now id admin dto d o s e (not_closed d.status c) a)
          (resolve-eq later id admin dto' (decide now dto d) (settle_order dto o) s1 e1 refl a1),
      refl,
      (find-settled later id admin d.order_id dto' (settle_order dto o) s1 a1, refl, refl, refl),
    )
