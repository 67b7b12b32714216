-- ===== src/Orders/Paid.antt =====
-- What `payOrder` (kahade-backend/src/core/order/order.service.ts) has checked and done when it
-- returns.
use rekberkan.Base.{
  ℕ, ◌≡◌, refl, ◌∙◌, false, not, ◌||◌, ◌⊎◌, Option, none, some, [], ◌∷◌, ◌++◌, arith, inl, inr,
  is_id,
}
use mathlib.Core.Path.{subst}
use rekberkan.Base.Int.{ℤ, pos, negsuc, ◌≤ℤ◌, ◌<ℤ◌, 0ℤ, ltb_ℤ, times}
use rekberkan.Base.Table.{find_by-update_by, find_by-append, find_by-key, update_by}
use rekberkan.Store.{
  Store, Wallet, EscrowHold, EscrowHoldStatus, Order, OrderStatus, ok, Error, >>=-eq-ok,
}
use rekberkan.Store.Returns.{found, unless_raised}
use rekberkan.Wallet.Rows.{find_wallet, available}
use rekberkan.Wallet.Moves.{WalletBalance, get_balance}
use rekberkan.Wallet.Balances.{get_balance-cases}
use rekberkan.Escrow.Rows.{find_order}
use rekberkan.Escrow.Create.{CreateEscrowOptions, create_escrow, pay}
use rekberkan.Escrow.Opened.{find_held, IsFor, Locks, create_escrow-ok}
use rekberkan.Orders.Rows.{find_by_id, buyer_id, is_pending, is_accepted}
use rekberkan.Orders.Writes.{written, Writes, update_status-ok, is_id→eq, live, payable}
use rekberkan.Orders.Payments.{
  pay_order, charge, escrow_options, total_amount, whole_hundredths, auto_release_date,
}

whole_hundredths-times : (a b : ℤ) → whole_hundredths a ≡ some b → times b 100 ≡ a
whole_hundredths-times (pos n) b h = ground arith
whole_hundredths-times (negsuc n) b h = ground arith

at_least : (b m : ℤ) → ltb_ℤ b m ≡ false → times m 100 ≤ℤ times b 100
at_least (pos b) (pos m) p = ground arith
at_least (pos b) (negsuc m) p = ground arith
at_least (negsuc b) (pos m) p = ground arith
at_least (negsuc b) (negsuc m) p = ground arith

enough : (a b m : ℤ) → whole_hundredths a ≡ some b → ltb_ℤ b m ≡ false → times m 100 ≤ℤ a
enough a b m h p = subst (λ x. times m 100 ≤ℤ x) (whole_hundredths-times a b h) (at_least b m p)

-- The order once it is paid
abbrev pub paid_row : ℕ → Order → Order
paid_row now o = record o {
  status = OrderStatus.paid;
  auto_release_at = some (auto_release_date now o);
  paid_at = some now;
}

paid_twice :
    (now oid id : ℕ) (opts : CreateEscrowOptions) (o : Order) (s s1 t : Store) (r : Order)
    → oid ≡ id
    → find_order id s ≡ some o
    → s1.orders ≡ update_by Order.id oid (pay now opts) s.orders
    → Writes id
        (written now OrderStatus.paid
          (λ x. record x { auto_release_at = some (auto_release_date now o) }))
        s1
        t
        r
    → (r ≡ paid_row now o) × (find_order id t ≡ some r)
paid_twice now oid id opts o s s1 t r i a p' (x, b, c, d, e, f) =
    let g =
      written now OrderStatus.paid
        (λ x. record x { auto_release_at = some (auto_release_date now o) }) in
    let p : s1.orders ≡ update_by Order.id id (pay now opts) s.orders = rw i at p' in
    let once = find_by-update_by Order.id id id (pay now opts) s.orders (λ _. refl) in
    let twice = find_by-update_by Order.id id id g s1.orders (λ _. refl) in
    let was : find_order id s1 ≡ some (pay now opts o) = ground arith in
    (ground arith, ground arith)

charge-ok :
    (now user id : ℕ) (o : Order) (key : ℕ) (b : WalletBalance) (s t : Store) (r : Order)
    → o.id ≡ id
    → find_held o.id s ≡ none
    → find_order id s ≡ some o
    → charge now user id o key b s ≡ (ok r, t)
    → (times (total_amount o) 100 ≤ℤ b.available_minor)
      × Locks user o.amount_minor s t
      × (e : EscrowHold) × (t.escrows ≡ s.escrows ++ e ∷ [])
      × IsFor (escrow_options user o key) e
      × (r ≡ paid_row now o)
      × (find_order id t ≡ some r)
unfolding charge
charge-ok now user id o key b s t r i e a h =
    let (n, p, h1) = found Error.internal (λ _. whole_hundredths b.available_minor) _ s t r h in
    let (q, h2) = unless_raised (ltb_ℤ n (total_amount o)) Error.bad_request _ s t r h1 in
    let (x, s1, p1, h3) = >>=-eq-ok (create_escrow now (escrow_options user o key)) _ s h2 in
    let ((w, l1, l2, l3, l4, l5), (y, k1, k2, k3, k5, k4)) =
      create_escrow-ok now (escrow_options user o key) s s1 x e p1 in
    let z =
      update_status-ok now id OrderStatus.paid
        (λ v. record v { auto_release_at = some (auto_release_date now o) }) s1 t r h3 in
    let (same, row) = paid_twice now o.id id (escrow_options user o key) o s s1 t r i a k2 z in
    let (v, z1, z2, z3, z4, z5) = z in
    (enough b.available_minor n (total_amount o) p q, (w, l1, l2, l3, cc, cc), x, cc, k4, same, row)

-- What a payment has checked and done, from the tables `s` to the tables `t`
abbrev pub Paid : ℕ → ℕ → ℕ → Store → Store → Order → Type 0
Paid now user id s t r =
    (o : Order) × (find_by_id id s ≡ some o)
    × (buyer_id o ≡ some user)
    × ((o.status ≡ OrderStatus.pending_accept) ⊎ (o.status ≡ OrderStatus.accepted))
    × (w : Wallet) × (find_wallet user s ≡ some w)
    × (times (total_amount o) 100 ≤ℤ available w)
    × Locks user o.amount_minor s t
    × (e : EscrowHold) × (find_held id t ≡ some e)
    × (e.amount_minor ≡ o.amount_minor)
    × (e.status ≡ EscrowHoldStatus.active)
    × (r ≡ paid_row now o)
    × (find_order id t ≡ some r)

no_amount : (a m : ℤ) → a ≡ 0ℤ → 0ℤ <ℤ m → m ≤ℤ a → ⊥
no_amount a m e l g = ground arith

same_wallet : (x : Option Wallet) (w v : Wallet) → x ≡ some w → x ≡ some v → w ≡ v
same_wallet x w v p q = cc

not_empty :
    (x : Option Wallet) (w v : Wallet) (m : ℤ)
    → x ≡ some w
    → x ≡ some v
    → available w ≡ 0ℤ
    → 0ℤ <ℤ m
    → m ≤ℤ available v
    → ⊥
not_empty x w v m p q e l g = no_amount (available v) m (rw (same_wallet x w v p q) at e) l g

-- The wallet that pays was there before, since a new one is empty.
charge_after :
    (now user id : ℕ) (o : Order) (key : ℕ) (b : WalletBalance) (s s1 t : Store) (r : Order)
    → o.id ≡ id
    → find_held o.id s ≡ none
    → find_order id s ≡ some o
    → get_balance user s ≡ (ok b, s1)
    → charge now user id o key b s1 ≡ (ok r, t)
    → (w : Wallet) × (find_wallet user s ≡ some w)
      × (times (total_amount o) 100 ≤ℤ available w)
      × Locks user o.amount_minor s t
      × (e : EscrowHold) × (t.escrows ≡ s.escrows ++ e ∷ [])
      × IsFor (escrow_options user o key) e
      × (r ≡ paid_row now o)
      × (find_order id t ≡ some r)
charge_after now user id o key b s s1 t r i e a p h = elim (get_balance-cases user s s1 b p) [
  | inl (w, q, same, n) ↦
      let (m, l, x, k, f, y, z) = charge-ok now user id o key b s t r i e a (rw same at h) in
      (w, q, subst (λ y. times (total_amount o) 100 ≤ℤ y) n m, l, x, k, f, y, z)
  | inr (w, q, n, k, k') ↦
      let (m, (v, l1, l2, l3, l4, l5), x, x2, x3, x4, x5) =
        charge-ok now user id o key b s1 t r i (cc) (cc) h in
      absurd (not_empty (find_wallet user s1) w v o.amount_minor q l1 n l2 l3)
]

last_held :
    (id : ℕ) (x : EscrowHold) (s t : Store)
    → find_held id s ≡ none
    → t.escrows ≡ s.escrows ++ x ∷ []
    → x.order_id ≡ id
    → find_held id t ≡ some x
last_held id x s t e f i =
    rw f (rw (find_by-append EscrowHold.order_id id s.escrows (x ∷ [])) (ground arith))

-- When `payOrder` returns for an order that had no escrow: the caller is the buyer of the order,
-- which was accepted; the buyer's wallet had at least a hundred times the amount and the buyer's part
-- of the fee available; the balances of all wallets together are the same and the locked parts have
-- gone up by the amount; the order has an active escrow of its amount; it is paid, with the date and
-- the time of its release, and is what the call returns.
pub pay_order-ok :
    (now user id : ℕ) (key : Option ℕ) (s t : Store) (r : Order)
    → find_held id s ≡ none
    → pay_order now user id key s ≡ (ok r, t)
    → Paid now user id s t r
unfolding pay_order
pay_order-ok now user id key s t r e h =
    let (k, a, h1) = found Error.bad_request (λ _. key) _ s t r h in
    let (o, b, h2) = found Error.not_found (find_by_id id) _ s t r h1 in
    let (c, h3) = unless_raised (not (is_id (buyer_id o) user)) Error.forbidden _ s t r h2 in
    let (d, h4) =
      unless_raised (not (is_pending o.status || is_accepted o.status)) Error.bad_request _ s t r
        h3 in
    let (bal, s1, p, h5) = >>=-eq-ok (get_balance user) (charge now user id o k) s h4 in
    let there = live (find_order id s) o b in
    let i = find_by-key Order.id id o s.orders there in
    let (w, q, m, l, x, f, (g1, g2, g3), y, z) =
      charge_after now user id o k bal s s1 t r i (rw i e) there p h5 in
    (
      o,
      b,
      is_id→eq (buyer_id o) user c,
      payable o.status d,
      w,
      q,
      m,
      l,
      x,
      last_held id x s t e f (g1 ∙ i),
      g2,
      g3,
      y,
      z,
    )
