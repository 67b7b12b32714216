-- ===== src/Escrow/Release.antt =====
-- What `releaseEscrow` (kahade-backend/src/core/escrow/escrow.service.ts) has checked and done when
-- it returns.
use rekberkan.Base.{ℕ, ◌≡◌, refl, Bool, true, some, arith}
use rekberkan.Base.Int.{ℤ, ◌≤ℤ◌, ◌<ℤ◌, 0ℤ}
use rekberkan.Store.{
  Store, EscrowHold, EscrowHoldStatus, Order, Action, Result, ok, err, Error, ◌>>◌,
}
use rekberkan.Base.Table.{find_by-key}
use rekberkan.Store.Returns.{found, committed}
use rekberkan.Escrow.Machine.{
  StatusText, status, Resolution, EscrowAction, validate_escrow_transition,
  validate_actor_permission,
}
use rekberkan.Escrow.Rows.{find_escrow, find_order, find_wallet_id, settle, complete, check}
use rekberkan.Escrow.Settle.{release_tx, release_escrow, seller_wallet_of}
use rekberkan.Escrow.Laws.{EscrowEdge, buyer_of, permission_iff, validate_escrow_transition_iff}
use rekberkan.Escrow.Effects.{Pays}
use rekberkan.Escrow.Settled.{Closes, release_tx-ok}

-- A check that has passed
pub passed :
    {B : Type 0} (r : Result Bool) (k : Action B) (s t : Store) (b : B)
    → (check r >> k) s ≡ (ok b, t)
    → (a : Bool) × (r ≡ ok a) × (k s ≡ (ok b, t))
passed (ok a) k s t b h = (a, refl, h)
passed (err e) k s t b h = ground arith

pub validated :
    (a : EscrowHoldStatus) (b : StatusText) (r : Bool)
    → validate_escrow_transition a b ≡ ok r
    → validate_escrow_transition a b ≡ ok true
unfolding validate_escrow_transition
validated a b r h = ground arith

pub allowed :
    (o : Order) (actor : ℕ) (a : EscrowAction) (r : Bool)
    → validate_actor_permission o actor a ≡ ok r
    → validate_actor_permission o actor a ≡ ok true
unfolding validate_actor_permission
allowed o actor a r h = ground arith

-- What a release has checked and done, from the tables `s` to the tables `t`
abbrev pub Released : ℕ → ℕ → ℕ → ℤ → Store → Store → EscrowHold → Type 0
Released now id actor fee s t r =
    (e : EscrowHold) × (o : Order) × (find_escrow id s ≡ some e)
    × EscrowEdge e.status EscrowHoldStatus.released
    × (buyer_of o ≡ some actor)
    × (fee <ℤ e.amount_minor)
    × Pays fee e.amount_minor s t
    × Closes (settle EscrowHoldStatus.released now) (complete now) e o s t
    × (r ≡ settle EscrowHoldStatus.released now e)

-- When `releaseEscrow` returns, with a fee that is not negative: the escrow was there, in a state
-- from which it may be released, and the caller is the buyer of its order; the fee is less than the
-- amount; the balances of all wallets together have gone down by the fee and the locked parts by the
-- whole amount; the escrow is released and its order completed.
pub release_escrow-ok :
    (now id actor key : ℕ) (fee : ℤ) (s t : Store) (r : EscrowHold)
    → 0ℤ ≤ℤ fee
    → release_escrow now id actor fee key s ≡ (ok r, t)
    → Released now id actor fee s t r
unfolding release_escrow
release_escrow-ok now id actor key fee s t r nonneg h =
    let (e, a, h1) = found Error.not_found (find_escrow id) _ s t r h in
    let (o, c, h2) = found Error.record_not_found (find_order e.order_id) _ s t r h1 in
    let (w, d, h3) = found Error.record_not_found (find_wallet_id e.buyer_wallet_id) _ s t r h2 in
    let (x, p, h4) =
      passed (validate_escrow_transition e.status (status EscrowHoldStatus.released)) _ s t r h3 in
    let (y, q, h5) = passed (validate_actor_permission o actor EscrowAction.release) _ s t r h4 in
    let (v, f, h6) = found Error.bad_request (seller_wallet_of e) _ s t r h5 in
    let (small, money, rows, result) =
      release_tx-ok now e o w v fee key s t r nonneg
        (rw (find_by-key EscrowHold.id id e s.escrows a) a) c
        (committed (release_tx now e w v fee key) s t r h6) in
    (
      e,
      o,
      a,
      (validate_escrow_transition_iff e.status EscrowHoldStatus.released Resolution.split).0.0
          (validated e.status (status EscrowHoldStatus.released) x p),
      (permission_iff o actor).0.0 (allowed o actor EscrowAction.release y q),
      small,
      money,
      rows,
      result,
    )
