-- ===== src/Orders/Delivered.antt =====
-- What `confirmDelivery` (kahade-backend/src/core/order/order.service.ts) has checked and done when
-- it returns, and what a dispute that is cancelled leaves behind.
use rekberkan.Base.{ℕ, ◌≡◌, refl, ap, sym, ◌∙◌, not, Option, some, is_id, arith}
use mathlib.Core.Path.{subst}
use mathlib.Core.Option.{some-injective}
use rekberkan.Base.Int.{ℤ, ◌≤ℤ◌, ◌<ℤ◌, 0ℤ}
use rekberkan.Base.Table.{find_by-key, find_by-update_by}
use rekberkan.Store.{Store, EscrowHold, EscrowHoldStatus, Order, OrderStatus, ok, Error, >>=-eq-ok}
use rekberkan.Store.Returns.{found, unless_raised}
use rekberkan.Escrow.Rows.{find_escrow, find_order, settle, complete}
use rekberkan.Escrow.Settle.{release_escrow}
use rekberkan.Escrow.Effects.{Pays}
use rekberkan.Escrow.Laws.{EscrowEdge, buyer_of}
use rekberkan.Escrow.Settled.{Closes}
use rekberkan.Escrow.Release.{release_escrow-ok}
use rekberkan.Orders.Rows.{find_by_id, buyer_id, is_paid, update_status}
use rekberkan.Orders.Payments.{confirm_delivery, escrow_of}
use rekberkan.Orders.Writes.{written, Writes, update_status-ok, is_id→eq, live}
use rekberkan.Orders.Keys.{found_by_id}
use rekberkan.Orders.Sound.{IsSound}
use rekberkan.Orders.Steps.{paid_status}

abbrev pub Delivered : ℕ → ℕ → ℕ → Store → Store → Order → Type 0
Delivered now user id s t r =
    (o : Order) × (e : EscrowHold) × (find_by_id id s ≡ some o)
    × (buyer_id o ≡ some user)
    × (o.status ≡ OrderStatus.paid)
    × (escrow_of o s ≡ some e)
    × (o.platform_fee_minor <ℤ e.amount_minor)
    × Pays o.platform_fee_minor e.amount_minor s t
    × (find_escrow e.id t ≡ some (settle EscrowHoldStatus.released now e))
    × (r ≡ complete now o)
    × (find_order id t ≡ some r)

Pays-kept : (m n : ℤ) (s t u : Store) → u.wallets ≡ t.wallets → Pays m n s t → Pays m n s u
Pays-kept m n s t u w (p, q) = (rw w p, rw w q)

escrow_kept :
    (id : ℕ) (e : EscrowHold) (s t : Store)
    → t.escrows ≡ s.escrows
    → find_escrow id s ≡ some e
    → find_escrow id t ≡ some e
escrow_kept id e s t p q = rw p q

-- The status is written twice, by the escrow service and by the order service.
completed_twice :
    (now id : ℕ) (o : Order) (s t : Store) (r : Order)
    → find_order id s ≡ some (complete now o)
    → Writes id (written now OrderStatus.completed (λ x. x)) s t r
    → (r ≡ complete now o) × (find_order id t ≡ some r)
completed_twice now id o s t r a (x, b, c, d, e, f) =
    let twice =
      find_by-update_by Order.id id id (written now OrderStatus.completed (λ x. x)) s.orders
        (λ _. refl) in
    (ground arith, ground arith)

-- The escrow and the order that the release has found are those of the order that is confirmed.
rows_agree :
    (now id : ℕ) (o o' : Order) (e e' : EscrowHold) (s s1 : Store)
    → e' ≡ e
    → e.order_id ≡ id
    → find_order id s ≡ some o
    → find_order e'.order_id s ≡ some o'
    → find_escrow e'.id s1 ≡ some (settle EscrowHoldStatus.released now e')
    → find_order e'.order_id s1 ≡ some (complete now o')
    → (find_escrow e.id s1 ≡ some (settle EscrowHoldStatus.released now e))
      × (find_order id s1 ≡ some (complete now o))
rows_agree now id o o' e e' s s1 a b c d f g =
    let i : e'.order_id ≡ id = ap (λ z. z.order_id) a ∙ b in
    let same : o' ≡ o =
      some-injective _ _ (sym d ∙ subst (λ j. find_order j s ≡ some o) (sym i) c) in
    (
      subst (λ z. find_escrow z.id s1 ≡ some (settle EscrowHoldStatus.released now z)) a f,
      subst (λ z. find_order id s1 ≡ some (complete now z)) same
          (subst (λ j. find_order j s1 ≡ some (complete now o')) i g),
    )

Delivered-of :
    (now user id : ℕ) (o : Order) (e e' : EscrowHold) (o' : Order) (s s1 t : Store) (x : EscrowHold)
    (r : Order)
    → IsSound s
    → find_by_id id s ≡ some o
    → buyer_id o ≡ some user
    → o.status ≡ OrderStatus.paid
    → escrow_of o s ≡ some e
    → (find_escrow e.id s ≡ some e')
      × EscrowEdge e'.status EscrowHoldStatus.released
      × (buyer_of o' ≡ some user)
      × (o.platform_fee_minor <ℤ e'.amount_minor)
      × Pays o.platform_fee_minor e'.amount_minor s s1
      × Closes (settle EscrowHoldStatus.released now) (complete now) e' o' s s1
      × (x ≡ settle EscrowHoldStatus.released now e')
    → Writes id (written now OrderStatus.completed (λ x. x)) s1 t r
    → Delivered now user id s t r
Delivered-of now user id o e e' o' s s1 t x r sound p c d u
      (i1, i2, i3, i4, i5, (j1, j2, j3, j4), i6) w =
    let there = live (find_order id s) o p in
    let keyed = found_by_id EscrowHold.id EscrowHold.order_id o.id e s.escrows sound.keyed u in
    let one : e' ≡ e = some-injective _ _ (sym i1 ∙ keyed) in
    let (row, order) =
      rows_agree now id o o' e e' s s1 one
        (find_by-key EscrowHold.order_id o.id e s.escrows u
          ∙ find_by-key Order.id id o s.orders there)
        there j2 j3 j4 in
    let (result, last) = completed_twice now id o s1 t r order w in
    let (y, w1, w2, w3, w4, w5) = w in
    (
      o,
      e,
      p,
      c,
      d,
      u,
      subst (λ (z : EscrowHold). o.platform_fee_minor <ℤ z.amount_minor) one i4,
      Pays-kept o.platform_fee_minor e.amount_minor s s1 t w4
          (subst (λ (z : EscrowHold). Pays o.platform_fee_minor z.amount_minor s s1) one i5),
      escrow_kept e.id (settle EscrowHoldStatus.released now e) s1 t w5 row,
      result,
      last,
    )

-- When `confirmDelivery` returns in sound tables, with a fee that is not negative: the caller is the
-- buyer of the order, which was paid and has an escrow of more than the fee; the balances of all
-- wallets together have gone down by the fee and the locked parts by the escrow's amount; the escrow
-- is released, and the order is completed and is what the call returns.
pub confirm_delivery-ok :
    (now user id : ℕ) (key : Option ℕ) (o : Order) (s t : Store) (r : Order)
    → IsSound s
    → find_by_id id s ≡ some o
    → 0ℤ ≤ℤ o.platform_fee_minor
    → confirm_delivery now user id key s ≡ (ok r, t)
    → Delivered now user id s t r
unfolding confirm_delivery
confirm_delivery-ok now user id key o s t r sound p nonneg h =
    let (k, a, h1) = found Error.bad_request (λ _. key) _ s t r h in
    let (o', b, h2') = found Error.not_found (find_by_id id) _ s t r h1 in
    let same : o' ≡ o = some-injective _ _ (sym b ∙ p) in
    let h2 = rw same at h2' in
    let (c, h3) = unless_raised (not (is_id (buyer_id o) user)) Error.forbidden _ s t r h2 in
    let (d, h4) = unless_raised (not (is_paid o.status)) Error.bad_request _ s t r h3 in
    let (e, u, h5) = found Error.bad_request (escrow_of o) _ s t r h4 in
    let (x, s1, q, h6) =
      >>=-eq-ok (release_escrow now e.id user o.platform_fee_minor k)
        (λ _. update_status now id OrderStatus.completed (λ z. z)) s h5 in
    let (e', o'', i1, i2, i3, i4, i5, (j1, j2, j3, j4), i6) =
      release_escrow-ok now e.id user k o.platform_fee_minor s s1 x nonneg q in
    Delivered-of now user id o e e' o'' s s1 t x r sound p (is_id→eq (buyer_id o) user c)
      (paid_status o.status d) u (i1, i2, i3, i4, i5, (j1, j2, j3, j4), i6)
      (update_status-ok now id OrderStatus.completed (λ z. z) s1 t r h6)
