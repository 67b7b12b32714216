-- ===== src/Escrow/Opened.antt =====
-- What `createEscrow` (kahade-backend/src/core/escrow/escrow.service.ts) has done when it returns,
-- for an order that had no escrow.
use rekberkan.Base.{ℕ, ◌≡◌, Option, none, some, [], ◌∷◌, ◌++◌, arith, inl, inr, Option-cases}
use rekberkan.Base.Int.{ℤ, ◌+ℤ◌, ◌≤ℤ◌, ◌<ℤ◌, 0ℤ}
use rekberkan.Base.Table.{find_by, update_by}
use rekberkan.Store.{
  Store, Wallet, EscrowHold, EscrowHoldStatus, Order, ok, Error, ◌>>◌, pure, >>=-eq-ok,
}
use rekberkan.Store.Returns.{found, committed, at_return, existing_none}
use rekberkan.Wallet.Rows.{find_wallet, available, put_wallet, lock}
use rekberkan.Wallet.Retry.{alone, lock_balance}
use rekberkan.Wallet.Alone.{lock_balance-ok, lock_balance-sums}
use rekberkan.Wallet.Sums.{total_balance, total_locked}
use rekberkan.Escrow.Rows.{find_escrow, find_order, update_order, insert_escrow}
use rekberkan.Escrow.Create.{
  CreateEscrowOptions, timeout_of, create_escrow_tx, create_new, create_escrow, find_seller,
  wallet_ref, pay, post_hold,
}
use rekberkan.Escrow.Frame.{SameRows, post_hold-SameRows}

abbrev pub find_held : ℕ → Store → Option EscrowHold
find_held order s = find_by EscrowHold.order_id order s.escrows

-- The escrow that was made: active, for the order and the amount that were asked for
abbrev pub IsFor : CreateEscrowOptions → EscrowHold → Type 0
IsFor o r =
    (r.order_id ≡ o.order_id)
    × (r.amount_minor ≡ o.amount_minor)
    × (r.status ≡ EscrowHoldStatus.active)

-- The money that an escrow takes: the buyer has it, and it is locked.
abbrev pub Locks : ℕ → ℤ → Store → Store → Type 0
Locks buyer amount s t =
    (w : Wallet) × (find_wallet buyer s ≡ some w)
    × (0ℤ <ℤ amount)
    × (amount ≤ℤ available w)
    × (total_balance t ≡ total_balance s)
    × (total_locked t ≡ total_locked s +ℤ amount)

-- The rows of escrows and orders: one escrow more, and its order paid
abbrev pub Opens : ℕ → CreateEscrowOptions → Store → Store → EscrowHold → Type 0
Opens now o s t r =
    (x : Order) × (find_order o.order_id s ≡ some x)
    × (t.orders ≡ update_by Order.id o.order_id (pay now o) s.orders)
    × (t.escrows ≡ s.escrows ++ r ∷ [])
    × (find_escrow r.id s ≡ none)
    × IsFor o r

insert_escrow-rows :
    (order buyer : ℕ) (seller : Option ℕ) (amount : ℤ) (timeout : ℕ) (s t : Store) (r : EscrowHold)
    → insert_escrow order buyer seller amount timeout s ≡ (ok r, t)
    → (t.escrows ≡ s.escrows ++ r ∷ [])
      × (t.orders ≡ s.orders)
      × (t.wallets ≡ s.wallets)
      × (r.order_id ≡ order)
      × (r.amount_minor ≡ amount)
      × (r.status ≡ EscrowHoldStatus.active)
      × (find_escrow r.id s ≡ none)
unfolding insert_escrow
insert_escrow-rows order buyer seller amount timeout s t r h =
    elim (Option-cases (find_escrow s.next_id s)) [
      | inr (x, p) ↦ absurd (ground arith)
      | inl p ↦ elim (Option-cases (find_by EscrowHold.order_id order s.escrows)) [
        | inr (x, q) ↦ absurd (ground arith)
        | inl q ↦ let g = rw (p, q) at h in (cc, cc, cc, cc, cc, cc, cc)
      ]
    ]

pub update_order-rows :
    (id : ℕ) (f : Order → Order) (s t : Store) (r : Order)
    → update_order id f s ≡ (ok r, t)
    → (x : Order) × (find_order id s ≡ some x)
      × (r ≡ f x)
      × (t.orders ≡ update_by Order.id id f s.orders)
      × (t.wallets ≡ s.wallets)
      × (t.escrows ≡ s.escrows)
unfolding update_order
update_order-rows id f s t r h = elim (Option-cases (find_order id s)) [
  | inl e ↦ absurd (ground arith)
  | inr (x, p) ↦ (x, p, ground arith, ground arith, ground arith, ground arith)
]

-- The steps of the transaction, each in the tables that the one before has left
opened_steps :
    (now : ℕ) (o : CreateEscrowOptions) (s s1 s2 s5 t : Store) (r : EscrowHold) (w : Wallet)
    (x : Order)
    → find_wallet o.buyer_user_id s ≡ some w
    → 0ℤ <ℤ o.amount_minor
    → o.amount_minor ≤ℤ available w
    → s1 ≡ put_wallet o.buyer_user_id (lock o.amount_minor) s
    → (total_balance s1 ≡ total_balance s) × (total_locked s1 ≡ total_locked s +ℤ o.amount_minor)
    → (s2.escrows ≡ s1.escrows ++ r ∷ [])
      × (s2.orders ≡ s1.orders)
      × (s2.wallets ≡ s1.wallets)
      × (find_escrow r.id s1 ≡ none)
      × IsFor o r
    → SameRows s2 s5
    → find_order o.order_id s5 ≡ some x
    → (t.orders ≡ update_by Order.id o.order_id (pay now o) s5.orders)
      × (t.wallets ≡ s5.wallets)
      × (t.escrows ≡ s5.escrows)
    → Locks o.buyer_user_id o.amount_minor s t × Opens now o s t r
opened_steps now o s s1 s2 s5 t r w x a p q l (b, c) (e, f, g, fr, i) (k, (m, n)) y (u, v, z) =
    ((w, a, p, q, cc, cc), (x, cc, cc, cc, cc, i))

returned : {A : Type 0} (a b : A) (s t : Store) → pure a s ≡ (ok b, t) → (a ≡ b) × (t ≡ s)
returned a b s t h = (cc, cc)

create_escrow_tx-ok :
    (now : ℕ) (o : CreateEscrowOptions) (b : Wallet) (v : Option Wallet) (s t : Store)
    (r : EscrowHold)
    → create_escrow_tx now o b v s ≡ (ok r, t)
    → Locks o.buyer_user_id o.amount_minor s t × Opens now o s t r
unfolding create_escrow_tx
create_escrow_tx-ok now o b v s t r h =
    let (l, s1, p1, h1) = >>=-eq-ok (lock_balance alone o.buyer_user_id o.amount_minor) _ s h in
    let (e, s2, p2, h2) =
      >>=-eq-ok (insert_escrow o.order_id b.id (wallet_ref v) o.amount_minor (timeout_of now o))
        (λ e. post_hold now b e o >> (update_order o.order_id (pay now o) >> pure e)) s1 h1 in
    let (j, s5, p5, h5) = >>=-eq-ok (post_hold now b e o) _ s2 h2 in
    let (x, s6, p6, h6) = >>=-eq-ok (update_order o.order_id (pay now o)) (λ _. pure e) s5 h5 in
    let (w, m1, m2, m3, m4) = lock_balance-ok o.buyer_user_id o.amount_minor s s1 l p1 in
    let sums = lock_balance-sums o.buyer_user_id o.amount_minor s s1 l p1 in
    let (i1, i2, i3, i4, i5, i6, i7) =
      insert_escrow-rows o.order_id b.id (wallet_ref v) o.amount_minor (timeout_of now o) s1 s2 e
        p2 in
    let (y, k1, k2, k3, k4, k5) = update_order-rows o.order_id (pay now o) s5 s6 x p6 in
    let (done, same) = returned e r s6 t h6 in
    opened_steps now o s s1 s2 s5 t r w y m1 m2 m3 m4 sums (cc, i2, i3, rw done at i7, (cc, cc, cc))
      (at_return (SameRows s2) _ p5 (post_hold-SameRows now b e o s2)) k1 (cc, cc, cc)

-- When `createEscrow` returns for an order that had no escrow: the buyer's wallet had the amount
-- available, which is positive; the balances of all wallets together are the same and the locked
-- parts have gone up by the amount; the order is paid, and has the new escrow, which is active.
pub create_escrow-ok :
    (now : ℕ) (o : CreateEscrowOptions) (s t : Store) (r : EscrowHold)
    → find_held o.order_id s ≡ none
    → create_escrow now o s ≡ (ok r, t)
    → Locks o.buyer_user_id o.amount_minor s t × Opens now o s t r
unfolding create_escrow create_new
create_escrow-ok now o s t r e h =
    let h1 = existing_none (find_held o.order_id) (create_new now o) s t r e h in
    let (b, p, h2) = found Error.not_found (find_wallet o.buyer_user_id) _ s t r h1 in
    let v = find_seller o.seller_user_id s in
    create_escrow_tx-ok now o b v s t r (committed (create_escrow_tx now o b v) s t r h2)
