-- ===== src/Orders/Sound.antt =====
-- What holds of the orders and escrows whatever the order service
-- (kahade-backend/src/core/order/order.service.ts) does: identifiers are distinct, and only an order
-- that has been paid has an escrow. And how each kind of write to the orders keeps it.
use rekberkan.Base.{
  ℕ, ◌≡◌, refl, sym, ap, true, false, ◌∙◌, none, some, [], ◌∷◌, ◌++◌, ◌==◌, inl, inr, Bool-cases,
  Option-cases, eq→==, ==→eq,
}
use mathlib.Core.Path.{subst}
use mathlib.Core.Option
use rekberkan.Base.Table.{update_by, find_by-update_by, find_by-append}
use rekberkan.Store.{Store, EscrowHold, Order, OrderStatus}
use rekberkan.Escrow.Rows.{find_order}
use rekberkan.Escrow.Opened.{find_held}
use rekberkan.Orders.Keys.{Distinct, Distinct-update_by, Distinct-append}
use rekberkan.Orders.Life.{view, deal, Life, IsPast, Life-IsPast}

abbrev pub Backed : Store → Type 0
Backed s = (id : ℕ) (e : EscrowHold) → find_held id s ≡ some e → IsPast (deal id s)

abbrev pub Leads : Store → Store → Type 0
Leads s t = (id : ℕ) → Life (deal id s) (deal id t)

-- From the tables `s` on, every order has gone on as orders do, and what must hold still does.
pub record Sound (s t : Store) : Type 0 where
  pub leads : Leads s t
  pub backed : Backed t
  pub distinct : Distinct Order.id t.orders
  pub keyed : Distinct EscrowHold.id t.escrows

-- What must hold of some tables
abbrev pub IsSound : Store → Type 0
IsSound s = Sound s s

pub Sound-end : (s t : Store) → Sound s t → IsSound t
Sound-end s t h = record {
  leads = λ id. Life.stays refl;
  backed = h.backed;
  distinct = h.distinct;
  keyed = h.keyed;
}

pub Sound-then : (s t u : Store) → Sound s t → Sound t u → Sound s u
Sound-then s t u h k = record {
  leads = λ id. Life.later (h.leads id) (k.leads id);
  backed = k.backed;
  distinct = k.distinct;
  keyed = k.keyed;
}

-- The escrows of `t` are for orders that had one in `s`, and are as distinct.
abbrev pub Covers : Store → Store → Type 0
Covers s t =
    (id : ℕ) (e : EscrowHold)
    → find_held id t ≡ some e
    → (x : EscrowHold) × (find_held id s ≡ some x)

abbrev pub Keeps : Store → Store → Type 0
Keeps s t = Covers s t × (Distinct EscrowHold.id s.escrows → Distinct EscrowHold.id t.escrows)

Backed-Leads : (s t : Store) → Backed s → Leads s t → Covers s t → Backed t
Backed-Leads s t b l c id e p =
    let (x, q) = c id e p in Life-IsPast (deal id s) (deal id t) (l id) (b id x q)

pub same_escrows : (s t : Store) → t.escrows ≡ s.escrows → Keeps s t
same_escrows s t p = ((λ id e h. (e, rw p at h)), λ d. rw p d)

pub same_orders : (s t : Store) → Sound s s → t.orders ≡ s.orders → Keeps s t → Sound s t
same_orders s t h p c =
    let l : Leads s t = λ id. Life.stays (rw p refl) in
    record {
      leads = l;
      backed = Backed-Leads s t h.backed l c.0;
      distinct = rw p h.distinct;
      keyed = c.1 h.keyed;
    }

-- A write to the row of one order: its own row, and those of the others
pub find-written :
    (id : ℕ) (g : Order → Order) (o : Order) (s t : Store)
    → ((x : Order) → (g x).id ≡ x.id)
    → find_order id s ≡ some o
    → t.orders ≡ update_by Order.id id g s.orders
    → find_order id t ≡ some (g o)
find-written id g o s t k a p =
    rw p
      (rw (find_by-update_by Order.id id id g s.orders k, eq→== id id refl) (ap (Option.map g) a))

find-unwritten :
    (id j : ℕ) (g : Order → Order) (s t : Store)
    → ((x : Order) → (g x).id ≡ x.id)
    → (id == j) ≡ false
    → t.orders ≡ update_by Order.id id g s.orders
    → find_order j t ≡ find_order j s
find-unwritten id j g s t k e p = rw p (rw (find_by-update_by Order.id j id g s.orders k, e) refl)

pub Leads-update_by :
    (id : ℕ) (g : Order → Order) (o : Order) (s t : Store)
    → ((x : Order) → (g x).id ≡ x.id)
    → find_order id s ≡ some o
    → Life (some (view o)) (some (view (g o)))
    → t.orders ≡ update_by Order.id id g s.orders
    → Leads s t
Leads-update_by id g o s t k a m p j = elim (Bool-cases (id == j)) [
  | inl e ↦
      subst (λ i. Life (deal i s) (deal i t)) (==→eq id j e)
        (rw (a, find-written id g o s t k a p) m)
  | inr e ↦ Life.stays (ap (Option.map view) (sym (find-unwritten id j g s t k e p)))
]

-- A new order, for which no identifier is taken twice
not_new :
    (o : Order) (j : ℕ) (s t : Store)
    → find_order j s ≡ none
    → (o.id == j) ≡ false
    → t.orders ≡ s.orders ++ o ∷ []
    → find_order j t ≡ none
not_new o j s t q e p = rw p (rw (find_by-append Order.id j s.orders (o ∷ []), q, e) refl)

is_new :
    (o : Order) (j : ℕ) (s t : Store)
    → find_order j s ≡ none
    → (o.id == j) ≡ true
    → t.orders ≡ s.orders ++ o ∷ []
    → find_order j t ≡ some o
is_new o j s t q e p = rw p (rw (find_by-append Order.id j s.orders (o ∷ []), q, e) refl)

not_lost :
    (o x : Order) (j : ℕ) (s t : Store)
    → find_order j s ≡ some x
    → t.orders ≡ s.orders ++ o ∷ []
    → find_order j t ≡ some x
not_lost o x j s t q p = rw p (rw (find_by-append Order.id j s.orders (o ∷ []), q) refl)

Leads-append :
    (o : Order) (s t : Store)
    → find_order o.id s ≡ none
    → o.status ≡ OrderStatus.waiting_counterparty
    → o.counterparty_id ≡ none
    → t.orders ≡ s.orders ++ o ∷ []
    → Leads s t
Leads-append o s t n a b p j = elim (Option-cases (find_order j s)) [
  | inr (x, q) ↦ Life.stays (ap (Option.map view) (q ∙ sym (not_lost o x j s t q p)))
  | inl q ↦ elim (Bool-cases (o.id == j)) [
    | inl e ↦ Life.begins (view o) (rw q refl) a b (ap (Option.map view) (is_new o j s t q e p))
    | inr e ↦ Life.stays (ap (Option.map view) (q ∙ sym (not_new o j s t q e p)))
  ]
]

pub append-Sound :
    (o : Order) (s t : Store)
    → Sound s s
    → find_order o.id s ≡ none
    → o.status ≡ OrderStatus.waiting_counterparty
    → o.counterparty_id ≡ none
    → t.orders ≡ s.orders ++ o ∷ []
    → t.escrows ≡ s.escrows
    → Sound s t
append-Sound o s t h n a b p q =
    let l = Leads-append o s t n a b p in
    record {
      leads = l;
      backed = Backed-Leads s t h.backed l (same_escrows s t q).0;
      distinct = rw p (Distinct-append Order.id s.orders o n h.distinct);
      keyed = (same_escrows s t q).1 h.keyed;
    }

pub writes-Sound :
    (id : ℕ) (g : Order → Order) (o : Order) (s t : Store)
    → Sound s s
    → ((x : Order) → (g x).id ≡ x.id)
    → find_order id s ≡ some o
    → Life (some (view o)) (some (view (g o)))
    → t.orders ≡ update_by Order.id id g s.orders
    → Keeps s t
    → Sound s t
writes-Sound id g o s t h k a m p c =
    let l = Leads-update_by id g o s t k a m p in
    record {
      leads = l;
      backed = Backed-Leads s t h.backed l c.0;
      distinct = rw p (Distinct-update_by Order.id id g s.orders k h.distinct);
      keyed = c.1 h.keyed;
    }
