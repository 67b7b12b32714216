-- ===== src/Orders/Settling.antt =====
-- `payOrder` and `confirmDelivery` (kahade-backend/src/core/order/order.service.ts), with what they
-- call, keep what must hold and move the orders as they may be moved, however they end.
use rekberkan.Base.{
  ℕ, ◌≡◌, refl, ap, sym, ◌∙◌, not, ◌||◌, Option, none, some, ◌⊎◌, inl, inr, arith, is_id,
  Option-cases,
}
use mathlib.Core.Path.{subst}
use mathlib.Core.Option.{some-injective}
use rekberkan.Base.Int.{ltb_ℤ}
use rekberkan.Base.Table.{update_by, find_by-key}
use rekberkan.Store.{Store, EscrowHold, EscrowHoldStatus, Order, OrderStatus, ok, Error}
use rekberkan.Store.Returns.{at_return}
use rekberkan.Store.Endings.{ends-found, ends-unless, ends-then, ends-atomic}
use rekberkan.Wallet.Moves.{WalletBalance, get_balance, create_wallet, insert_wallet}
use rekberkan.Escrow.Rows.{find_order, complete, settle}
use rekberkan.Escrow.Create.{CreateEscrowOptions, create_escrow, pay}
use rekberkan.Escrow.Settle.{release_escrow}
use rekberkan.Escrow.Atomic.{create_escrow-IsAtomic, release_escrow-IsAtomic}
use rekberkan.Escrow.Frame.{SameDeals}
use rekberkan.Escrow.Opened.{find_held, create_escrow-ok}
use rekberkan.Escrow.Written.{release_escrow-rows}
use rekberkan.Orders.Rows.{find_by_id, buyer_id, is_pending, is_accepted, is_paid}
use rekberkan.Orders.Payments.{
  charge, escrow_options, pay_order, confirm_delivery, total_amount, whole_hundredths,
  auto_release_date, escrow_of,
}
use rekberkan.Orders.Writes.{live, payable}
use rekberkan.Orders.Life.{Deal, at_status, view, Step, Life, IsPast}
use rekberkan.Orders.Keys.{found_by_id}
use rekberkan.Orders.Sound.{
  Sound, IsSound, Sound-then, Sound-end, same_orders, same_escrows, writes-Sound, find-written,
}
use rekberkan.Orders.Backing.{settled_escrow, opens-Sound}
use rekberkan.Orders.Steps.{update_status-Sound, paid_status}

get_balance-SameDeals : (u : ℕ) (s : Store) → SameDeals s (get_balance u s).1
unfolding get_balance create_wallet insert_wallet
get_balance-SameDeals u s = ground arith

-- An order that is not paid yet has no escrow.
no_escrow :
    (id : ℕ) (o : Order) (s : Store)
    → IsSound s
    → find_order id s ≡ some o
    → (o.status ≡ OrderStatus.pending_accept) ⊎ (o.status ≡ OrderStatus.accepted)
    → find_held id s ≡ none
no_escrow id o s h a p = elim (Option-cases (find_held id s)) [
  | inl n ↦ n
  | inr (e, q) ↦ absurd (unpaid (view o) p (rw a at (h.backed id e q)))
]
  where
    unpaid :
        (d : Deal)
        → (d.status ≡ OrderStatus.pending_accept) ⊎ (d.status ≡ OrderStatus.accepted)
        → IsPast (some d)
        → ⊥
    unpaid d (inl q) k = k.1 q
    unpaid d (inr q) k = k.2 q

-- What the payment has done once the escrow is there
abbrev PaidRow : ℕ → Store → Type 0
PaidRow id t = (x : Order) × (find_order id t ≡ some x) × (x.status ≡ OrderStatus.paid)

create_escrow-Sound :
    (now : ℕ) (opts : CreateEscrowOptions) (o : Order) (s t : Store) (e : EscrowHold)
    → IsSound s
    → find_order opts.order_id s ≡ some o
    → (o.status ≡ OrderStatus.pending_accept) ⊎ (o.status ≡ OrderStatus.accepted)
    → create_escrow now opts s ≡ (ok e, t)
    → Sound s t × PaidRow opts.order_id t
create_escrow-Sound now opts o s t e h a p q =
    let (locks, (x, b, c, d, f, (g1, g2, g3))) =
      create_escrow-ok now opts s t e (no_escrow opts.order_id o s h a p) q in
    (
      opens-Sound opts.order_id (pay now opts) o e s t h (λ x. refl) a
          (Life.steps (view o) _ refl (Step.pay p refl) refl) refl c d g1 f,
      (pay now opts o, find-written opts.order_id (pay now opts) o s t (λ x. refl) a c, refl),
    )

balance-Sound : (u : ℕ) (s : Store) → IsSound s → Sound s (get_balance u s).1
balance-Sound u s h =
    let t = (get_balance u s).1 in
    let (e, f) = get_balance-SameDeals u s in same_orders s t h f (same_escrows s t e)

charge-Sound :
    (now user id : ℕ) (o : Order) (key : ℕ) (b : WalletBalance) (s : Store)
    → IsSound s
    → o.id ≡ id
    → find_order id s ≡ some o
    → (o.status ≡ OrderStatus.pending_accept) ⊎ (o.status ≡ OrderStatus.accepted)
    → Sound s (charge now user id o key b s).1
unfolding charge
charge-Sound now user id o key b s h i a p =
    let opts = escrow_options user o key in
    let there : find_order o.id s ≡ some o = subst (λ j. find_order j s ≡ some o) (sym i) a in
    ends-found (Sound s) Error.internal (λ _. whole_hundredths b.available_minor) _ s h
      (λ n q. ends-unless (Sound s) (ltb_ℤ n (total_amount o)) Error.bad_request _ s h (λ g.
        ends-then (Sound s) (create_escrow now opts) _ s
          (ends-atomic (Sound s) (create_escrow now opts) s (create_escrow-IsAtomic now opts) h
            (λ e t r. (create_escrow-Sound now opts o s t e h there p r).0))
          (λ e t r.
            let (k, (x, y, z)) = create_escrow-Sound now opts o s t e h there p r in
            Sound-then s t _ k (
              update_status-Sound now id OrderStatus.paid
                (λ v. record v { auto_release_at = some (auto_release_date now o) }) x t
                (Sound-end s t k) (λ v. refl) (subst (λ j. find_order j t ≡ some x) i y)
                (Life.stays (ap (λ (st : OrderStatus). some (at_status st (view x))) z))))))

pub pay_order-Sound :
    (now user id : ℕ) (key : Option ℕ) (s : Store)
    → IsSound s
    → Sound s (pay_order now user id key s).1
unfolding pay_order
pay_order-Sound now user id key s h =
    ends-found (Sound s) Error.bad_request (λ _. key) _ s h
      (λ k q. ends-found (Sound s) Error.not_found (find_by_id id) _ s h (λ o p.
        ends-unless (Sound s) (not (is_id (buyer_id o) user)) Error.forbidden _ s h (λ g.
          ends-unless (Sound s) (not (is_pending o.status || is_accepted o.status))
            Error.bad_request _ s h
            (λ r.
              let there = live (find_order id s) o p in
              ends-then (Sound s) (get_balance user) (charge now user id o k) s
                (balance-Sound user s h)
                (λ b t q.
                  let (e, f) = at_return (SameDeals s) _ q (get_balance-SameDeals user s) in
                  let h' = same_orders s t h f (same_escrows s t e) in
                  Sound-then s t _ h' (
                    charge-Sound now user id o k b t (Sound-end s t h')
                      (find_by-key Order.id id o s.orders there) (rw f there)
                      (payable o.status r)))))))

release_escrow-Sound :
    (now user id key : ℕ) (o : Order) (x e : EscrowHold) (s t : Store)
    → IsSound s
    → o.id ≡ id
    → find_order id s ≡ some o
    → o.status ≡ OrderStatus.paid
    → escrow_of o s ≡ some x
    → release_escrow now x.id user o.platform_fee_minor key s ≡ (ok e, t)
    → Sound s t × (find_order id t ≡ some (complete now o))
release_escrow-Sound now user id key o x e s t h i a p q r =
    let (y, b, (c, d)) = release_escrow-rows now x.id user o.platform_fee_minor key s t e r in
    let k = found_by_id EscrowHold.id EscrowHold.order_id o.id x s.escrows h.keyed q in
    let same : x ≡ y = some-injective _ _ (sym k ∙ b) in
    let to : y.order_id ≡ id =
      ap (λ z. z.order_id) (sym same) ∙ find_by-key EscrowHold.order_id o.id x s.escrows q ∙ i in
    let c' : t.orders ≡ update_by Order.id id (complete now) s.orders = rw to at c in
    (
      writes-Sound id (complete now) o s t h (λ z. refl) a
          (Life.steps (view o) _ refl (Step.finish p refl) refl) c'
          (settled_escrow y.id (settle EscrowHoldStatus.released now) s t (λ z. (refl, refl)) d),
      find-written id (complete now) o s t (λ z. refl) a c',
    )

pub confirm_delivery-Sound :
    (now user id : ℕ) (key : Option ℕ) (s : Store)
    → IsSound s
    → Sound s (confirm_delivery now user id key s).1
unfolding confirm_delivery
confirm_delivery-Sound now user id key s h =
    ends-found (Sound s) Error.bad_request (λ _. key) _ s h
      (λ k q. ends-found (Sound s) Error.not_found (find_by_id id) _ s h (λ o p.
        ends-unless (Sound s) (not (is_id (buyer_id o) user)) Error.forbidden _ s h (λ g.
          ends-unless (Sound s) (not (is_paid o.status)) Error.bad_request _ s h (λ r.
            ends-found (Sound s) Error.bad_request (escrow_of o) _ s h (λ x u.
              let there = live (find_order id s) o p in
              let i = find_by-key Order.id id o s.orders there in
              let done =
                λ (e : EscrowHold) (t : Store)
                    (v : release_escrow now x.id user o.platform_fee_minor k s ≡ (ok e, t)).
                  release_escrow-Sound now user id k o x e s t h i there (paid_status o.status r) u
                    v in
              ends-then (Sound s) (release_escrow now x.id user o.platform_fee_minor k) _ s
                (ends-atomic (Sound s) (release_escrow now x.id user o.platform_fee_minor k) s
                  (release_escrow-IsAtomic now x.id user o.platform_fee_minor k) h
                  (λ e t v. (done e t v).0))
                (λ e t v.
                  let (m, y) = done e t v in
                  Sound-then s t _ m (
                    update_status-Sound now id OrderStatus.completed (λ z. z) (complete now o) t
                      (Sound-end s t m) (λ z. refl) y (Life.stays refl))))))))
