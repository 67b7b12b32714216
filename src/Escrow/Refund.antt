-- ===== src/Escrow/Refund.antt =====
-- What `refundEscrow` (kahade-backend/src/core/escrow/escrow.service.ts) has checked and done when
-- it returns.
use rekberkan.Base.{ℕ, ◌≡◌, refl, Bool, some, arith, inl, inr, Bool-cases, ◌⊎◌, ◌==◌}
use rekberkan.Base.Int.{ℤ, ◌+ℤ◌, ◌-ℤ◌, ◌<ℤ◌, 0ℤ, int_laws}
use rekberkan.Base.Table.{find_by-key}
use rekberkan.Store.{
  Store, Wallet, EscrowHold, EscrowHoldStatus, Order, ok, Error, ◌>>=◌, ◌>>◌, pure, >>=-eq-ok,
}
use rekberkan.Store.Returns.{found, committed, at_return}
use rekberkan.Wallet.Rows.{unlock}
use rekberkan.Wallet.Moves.{unlock_balance}
use rekberkan.Wallet.Outcomes.{unlock_balance-ok}
use rekberkan.Wallet.Sums.{put_wallet-sums}
use rekberkan.Escrow.Machine.{status, Resolution, EscrowAction, validate_escrow_transition}
use rekberkan.Escrow.Rows.{
  find_escrow, find_order, find_wallet_id, settle, system, update_escrow, update_order,
}
use rekberkan.Escrow.Settle.{refund_tx, refund_escrow, post_refund, refund_order, may_refund}
use rekberkan.Escrow.Laws.{EscrowEdge, seller_of, permission_iff, validate_escrow_transition_iff}
use rekberkan.Escrow.Effects.{Pays}
use rekberkan.Escrow.Frame.{SameDeals, SameRows, post_refund-SameRows, unlock_balance-SameDeals}
use rekberkan.Escrow.Settled.{Closes, close_rows-ok, SameDeals-then}
use rekberkan.Escrow.Release.{passed, validated, allowed}

kept : (x y b : ℤ) → y +ℤ b ≡ x +ℤ b → y +ℤ 0ℤ ≡ x
kept x y b h = grind int_laws

unlocked : (x y l m : ℤ) → y +ℤ l ≡ x +ℤ (l -ℤ m) → y +ℤ m ≡ x
unlocked x y l m h = grind int_laws

-- An unlock that has returned pays nothing and lowers what is locked by its amount.
unlock_balance-Pays :
    (u : ℕ) (amount : ℤ) (s t : Store) (r : Wallet)
    → unlock_balance u amount s ≡ (ok r, t)
    → (0ℤ <ℤ amount) × Pays 0ℤ amount s t
unlock_balance-Pays u amount s t r h =
    let (w, e, p, q, i, j) = unlock_balance-ok u amount s t r h in
    let (b, l) = put_wallet-sums u (unlock amount) w s e in
    (p, rw j (kept _ _ w.balance_minor b, unlocked _ _ w.locked_minor amount l))

-- The steps of the transaction of a refund, each in the tables that the one before has left
refund_steps :
    (now : ℕ) (e : EscrowHold) (o : Order) (s s1 s2 t : Store) (r : EscrowHold)
    → find_escrow e.id s ≡ some e
    → find_order e.order_id s ≡ some o
    → SameRows s s1
    → SameDeals s1 s2
    → Pays 0ℤ e.amount_minor s1 s2
    → (update_escrow e.id (settle EscrowHoldStatus.refunded now) >>= λ r.
          update_order e.order_id (refund_order now) >> pure r)
        s2
      ≡ (ok r, t)
    → Pays 0ℤ e.amount_minor s t
      × Closes (settle EscrowHoldStatus.refunded now) (refund_order now) e o s t
      × (r ≡ settle EscrowHoldStatus.refunded now e)
refund_steps now e o s s1 s2 t r a c (w, d1) d2 m2 h =
    let (d, d3) = SameDeals-then s s1 s2 d1 d2 in
    let ((a', c', x, y), z, w4) =
      close_rows-ok e o (settle EscrowHoldStatus.refunded now) (refund_order now) s2 t r (λ _. refl)
        (λ _. refl) (cc) (cc) h in
    ((cc, cc), (a, c, x, y), z)

refund_tx-ok :
    (now : ℕ) (e : EscrowHold) (o : Order) (b : Wallet) (key : ℕ) (s t : Store) (r : EscrowHold)
    → find_escrow e.id s ≡ some e
    → find_order e.order_id s ≡ some o
    → refund_tx now e b key s ≡ (ok r, t)
    → (0ℤ <ℤ e.amount_minor)
      × Pays 0ℤ e.amount_minor s t
      × Closes (settle EscrowHoldStatus.refunded now) (refund_order now) e o s t
      × (r ≡ settle EscrowHoldStatus.refunded now e)
unfolding refund_tx
refund_tx-ok now e o b key s t r a c h =
    let (j, s1, p1, h1) = >>=-eq-ok (post_refund now e b key) _ s h in
    let (x, s2, p2, h2) = >>=-eq-ok (unlock_balance b.user_id e.amount_minor) _ s1 h1 in
    let (positive, m2) = unlock_balance-Pays b.user_id e.amount_minor s1 s2 x p2 in
    let (money, rows, result) =
      refund_steps now e o s s1 s2 t r a c
        (at_return (SameRows s) _ p1 (post_refund-SameRows now e b key s))
        (at_return (SameDeals s1) _ p2 (unlock_balance-SameDeals b.user_id e.amount_minor s1)) m2
        h2 in
    (positive, money, rows, result)

refunder :
    (o : Order) (actor : ℕ) (r : Bool)
    → may_refund o actor ≡ ok r
    → (actor ≡ system) ⊎ (seller_of o ≡ some actor)
refunder o actor r h = elim (Bool-cases (actor == system)) [
  | inl e ↦ inl (ground arith)
  | inr e ↦
      inr ((permission_iff o actor).1.0 (allowed o actor EscrowAction.refund r (ground arith)))
]

-- What a refund has checked and done, from the tables `s` to the tables `t`
abbrev pub Refunded : ℕ → ℕ → ℕ → Store → Store → EscrowHold → Type 0
Refunded now id actor s t r =
    (e : EscrowHold) × (o : Order) × (find_escrow id s ≡ some e)
    × EscrowEdge e.status EscrowHoldStatus.refunded
    × ((actor ≡ system) ⊎ (seller_of o ≡ some actor))
    × (0ℤ <ℤ e.amount_minor)
    × Pays 0ℤ e.amount_minor s t
    × Closes (settle EscrowHoldStatus.refunded now) (refund_order now) e o s t
    × (r ≡ settle EscrowHoldStatus.refunded now e)

-- When `refundEscrow` returns: the escrow was there, in a state from which it may be refunded, and
-- the caller is the system or the seller of its order; the amount is positive; the balances of all
-- wallets together are the same and the locked parts have gone down by the amount; the escrow and
-- its order are refunded.
pub refund_escrow-ok :
    (now id actor key : ℕ) (s t : Store) (r : EscrowHold)
    → refund_escrow now id actor key s ≡ (ok r, t)
    → Refunded now id actor s t r
unfolding refund_escrow
refund_escrow-ok now id actor key s t r h =
    let (e, a, h1) = found Error.not_found (find_escrow id) _ s t r h in
    let (o, c, h2) = found Error.record_not_found (find_order e.order_id) _ s t r h1 in
    let (w, d, h3) = found Error.record_not_found (find_wallet_id e.buyer_wallet_id) _ s t r h2 in
    let (x, p, h4) =
      passed (validate_escrow_transition e.status (status EscrowHoldStatus.refunded)) _ s t r h3 in
    let (y, q, h5) = passed (may_refund o actor) _ s t r h4 in
    let (positive, money, rows, result) =
      refund_tx-ok now e o w key s t r (rw (find_by-key EscrowHold.id id e s.escrows a) a) c
        (committed (refund_tx now e w key) s t r h5) in
    (
      e,
      o,
      a,
      (validate_escrow_transition_iff e.status EscrowHoldStatus.refunded Resolution.split).0.0
          (validated e.status (status EscrowHoldStatus.refunded) x p),
      refunder o actor y q,
      positive,
      money,
      rows,
      result,
    )
