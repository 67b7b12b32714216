-- ===== src/Escrow/Written.antt =====
-- The rows that `releaseEscrow` (kahade-backend/src/core/escrow/escrow.service.ts) has written when
-- it returns: those of one escrow and of its order, and no other escrow or order.
use rekberkan.Base.{ℕ, ◌≡◌, some, arith, inl, inr, Option-cases}
use rekberkan.Base.Int.{ℤ, ◌-ℤ◌}
use rekberkan.Base.Table.{update_by}
use rekberkan.Store.{
  Store, Wallet, EscrowHold, EscrowHoldStatus, Order, ok, Error, ◌>>=◌, ◌>>◌, pure, >>=-eq-ok,
}
use rekberkan.Store.Returns.{found, committed, at_return}
use rekberkan.Wallet.Moves.{transfer_locked_balance}
use rekberkan.Escrow.Machine.{
  status, EscrowAction, validate_escrow_transition, validate_actor_permission,
}
use rekberkan.Escrow.Rows.{
  find_escrow, find_order, find_wallet_id, update_escrow, update_order, settle, complete,
}
use rekberkan.Escrow.Settle.{deduct_fee, post_release, release_tx, release_escrow, seller_wallet_of}
use rekberkan.Escrow.Frame.{
  SameDeals, SameRows, post_release-SameRows, transfer_locked_balance-SameDeals,
  deduct_fee-SameDeals,
}
use rekberkan.Escrow.Release.{passed}
use rekberkan.Escrow.Opened.{update_order-rows}

update_escrow-rows :
    (id : ℕ) (f : EscrowHold → EscrowHold) (s t : Store) (r : EscrowHold)
    → update_escrow id f s ≡ (ok r, t)
    → (t.escrows ≡ update_by EscrowHold.id id f s.escrows) × (t.orders ≡ s.orders)
unfolding update_escrow
update_escrow-rows id f s t r h = elim (Option-cases (find_escrow id s)) [
  | inl e ↦ absurd (ground arith)
  | inr (e, p) ↦ (ground arith, ground arith)
]

-- The orders and escrows that a release leaves
abbrev pub Closed : ℕ → EscrowHold → Store → Store → Type 0
Closed now e s t =
    (t.orders ≡ update_by Order.id e.order_id (complete now) s.orders)
    × (t.escrows ≡ update_by EscrowHold.id e.id (settle EscrowHoldStatus.released now) s.escrows)

Closed-steps :
    (now : ℕ) (e : EscrowHold) (s s1 s2 s3 t : Store) (r : EscrowHold)
    → SameRows s s1
    → SameDeals s1 s2
    → SameDeals s2 s3
    → (update_escrow e.id (settle EscrowHoldStatus.released now) >>= λ r.
          update_order e.order_id (complete now) >> pure r)
        s3
      ≡ (ok r, t)
    → Closed now e s t
Closed-steps now e s s1 s2 s3 t r (w, (a, b)) (c, d) (f, g) h =
    let (r', u, p, q) =
      >>=-eq-ok (update_escrow e.id (settle EscrowHoldStatus.released now)) _ s3 h in
    let (o', v, x, y) = >>=-eq-ok (update_order e.order_id (complete now)) (λ _. pure r') u q in
    let (m, n) = update_escrow-rows e.id (settle EscrowHoldStatus.released now) s3 u r' p in
    let (o, k1, k2, k3, k4, k5) = update_order-rows e.order_id (complete now) u v o' x in (cc, cc)

release_tx-rows :
    (now : ℕ) (e : EscrowHold) (b v : Wallet) (fee : ℤ) (key : ℕ) (s t : Store) (r : EscrowHold)
    → release_tx now e b v fee key s ≡ (ok r, t)
    → Closed now e s t
unfolding release_tx
release_tx-rows now e b v fee key s t r h =
    let paid = e.amount_minor -ℤ fee in
    let (j, s1, p1, h1) = >>=-eq-ok (post_release now e v fee key) _ s h in
    let (x, s2, p2, h2) = >>=-eq-ok (transfer_locked_balance b.user_id v.user_id paid) _ s1 h1 in
    let (y, s3, p3, h3) = >>=-eq-ok (deduct_fee b.id fee) _ s2 h2 in
    Closed-steps now e s s1 s2 s3 t r
      (at_return (SameRows s) _ p1 (post_release-SameRows now e v fee key s))
      (at_return (SameDeals s1) _ p2
        (transfer_locked_balance-SameDeals b.user_id v.user_id paid s1))
      (at_return (SameDeals s2) _ p3 (deduct_fee-SameDeals b.id fee s2)) h3

pub release_escrow-rows :
    (now id actor : ℕ) (fee : ℤ) (key : ℕ) (s t : Store) (r : EscrowHold)
    → release_escrow now id actor fee key s ≡ (ok r, t)
    → (e : EscrowHold) × (find_escrow id s ≡ some e) × Closed now e s t
unfolding release_escrow
release_escrow-rows now id actor fee key s t r h =
    let (e, a, h1) = found Error.not_found (find_escrow id) _ s t r h in
    let (o, c, h2) = found Error.record_not_found (find_order e.order_id) _ s t r h1 in
    let (w, d, h3) = found Error.record_not_found (find_wallet_id e.buyer_wallet_id) _ s t r h2 in
    let (x, p, h4) =
      passed (validate_escrow_transition e.status (status EscrowHoldStatus.released)) _ s t r h3 in
    let (y, q, h5) = passed (validate_actor_permission o actor EscrowAction.release) _ s t r h4 in
    let (v, f, h6) = found Error.bad_request (seller_wallet_of e) _ s t r h5 in
    (
      e,
      a,
      release_tx-rows now e w v fee key s t r (committed (release_tx now e w v fee key) s t r h6),
    )
