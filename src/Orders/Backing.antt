-- ===== src/Orders/Backing.antt =====
-- Orders with escrows (kahade-backend/src/core/order/order.service.ts): what must hold of the tables
-- is kept when an escrow's row is written, and when an order is paid and gets an escrow.
use rekberkan.Base.{ℕ, ◌≡◌, sym, ◌∙◌, none, some, [], ◌∷◌, ◌++◌, arith, inl, inr, ◌⊎◌, Option-cases}
use mathlib.Core.Path.{subst}
use rekberkan.Base.Table.{find_by, update_by, find_by-append}
use rekberkan.Store.{Store, EscrowHold, Order, OrderStatus}
use rekberkan.Escrow.Rows.{find_order}
use rekberkan.Escrow.Opened.{find_held}
use rekberkan.Orders.Keys.{Distinct-update_by, Distinct-append, was_found}
use rekberkan.Orders.Life.{Deal, view, deal, Life, IsPast, Life-IsPast}
use rekberkan.Orders.Sound.{Sound, IsSound, Keeps, Leads-update_by, find-written}

-- A write to the row of one escrow
pub settled_escrow :
    (k : ℕ) (f : EscrowHold → EscrowHold) (s t : Store)
    → ((x : EscrowHold) → ((f x).order_id ≡ x.order_id) × ((f x).id ≡ x.id))
    → t.escrows ≡ update_by EscrowHold.id k f s.escrows
    → Keeps s t
settled_escrow k f s t h p = (
  (λ id e q.
      was_found EscrowHold.order_id EscrowHold.id id k f e s.escrows (λ x. (h x).0) (rw p at q)),
  (λ d. rw p (Distinct-update_by EscrowHold.id k f s.escrows (λ x. (h x).1) d)),
)

paid_IsPast : (d : Deal) → d.status ≡ OrderStatus.paid → IsPast (some d)
paid_IsPast d p = ((λ q. cc), (λ q. cc), (λ q. cc))

new_covers :
    (e x : EscrowHold) (id : ℕ) (s t : Store)
    → t.escrows ≡ s.escrows ++ e ∷ []
    → find_held id t ≡ some x
    → ((y : EscrowHold) × (find_held id s ≡ some y)) ⊎ (e.order_id ≡ id)
new_covers e x id s t p q = elim (Option-cases (find_held id s)) [
  | inr y ↦ inl y
  | inl n ↦ inr (ground (arith, p, find_by-append EscrowHold.order_id id s.escrows (e ∷ [])))
]

-- A new escrow, with its order paid
pub opens-Sound :
    (id : ℕ) (g : Order → Order) (o : Order) (e : EscrowHold) (s t : Store)
    → IsSound s
    → ((x : Order) → (g x).id ≡ x.id)
    → find_order id s ≡ some o
    → Life (some (view o)) (some (view (g o)))
    → (g o).status ≡ OrderStatus.paid
    → t.orders ≡ update_by Order.id id g s.orders
    → t.escrows ≡ s.escrows ++ e ∷ []
    → e.order_id ≡ id
    → find_by EscrowHold.id e.id s.escrows ≡ none
    → Sound s t
opens-Sound id g o e s t h k a m paid p q i n =
    let l = Leads-update_by id g o s t k a m p in
    record {
      leads = l;
      backed = λ j x r. elim (new_covers e x j s t q r) [
        | inl (y, z) ↦ Life-IsPast (deal j s) (deal j t) (l j) (h.backed j y z)
        | inr z ↦
            subst (λ i. IsPast (deal i t)) (sym i ∙ z)
              (rw (find-written id g o s t k a p) (paid_IsPast (view (g o)) paid))
      ];
      distinct = rw p (Distinct-update_by Order.id id g s.orders k h.distinct);
      keyed = rw q (Distinct-append EscrowHold.id s.escrows e n h.keyed);
    }
