-- ===== src/Escrow/Settled.antt =====
-- What a release and a refund of kahade-backend/src/core/escrow/escrow.service.ts have done when
-- they return: the guards that held, the money that moved, and the rows of the escrow and its order.
use rekberkan.Base.{ℕ, ◌≡◌, refl, ◌∙◌, some}
use mathlib.Core.Path.{subst}
use rekberkan.Base.Int.{ℤ, ◌-ℤ◌, ◌≤ℤ◌, ◌<ℤ◌, 0ℤ, int_laws}
use rekberkan.Store.{
  Store, Wallet, EscrowHold, EscrowHoldStatus, Order, ok, ◌>>=◌, ◌>>◌, pure, >>=-eq-ok,
}
use rekberkan.Store.Returns.{at_return}
use rekberkan.Wallet.Moves.{transfer_locked_balance}
use rekberkan.Wallet.Transfers.{MovesLocked, transfer_locked_balance-MovesLocked}
use rekberkan.Escrow.Rows.{find_escrow, find_order, update_escrow, update_order, settle, complete}
use rekberkan.Escrow.Settle.{deduct_fee, post_release, release_tx}
use rekberkan.Escrow.Frame.{
  SameDeals, SameRows, post_release-SameRows, transfer_locked_balance-SameDeals,
  deduct_fee-SameDeals,
}
use rekberkan.Escrow.Effects.{Pays, deduct_fee-Pays, update_escrow-ok, update_order-ok}

-- The escrow and its order in the tables before and after a call that has closed both.
abbrev pub Closes :
    (EscrowHold → EscrowHold) → (Order → Order) → EscrowHold → Order → Store → Store → Type 0
Closes f g e o s t =
    (find_escrow e.id s ≡ some e)
    × (find_order e.order_id s ≡ some o)
    × (find_escrow e.id t ≡ some (f e))
    × (find_order e.order_id t ≡ some (g o))

pub close_rows-ok :
    (e : EscrowHold) (o : Order) (f : EscrowHold → EscrowHold) (g : Order → Order) (s t : Store)
    (r : EscrowHold)
    → ((x : EscrowHold) → (f x).id ≡ x.id)
    → ((x : Order) → (g x).id ≡ x.id)
    → find_escrow e.id s ≡ some e
    → find_order e.order_id s ≡ some o
    → (update_escrow e.id f >>= λ r. update_order e.order_id g >> pure r) s ≡ (ok r, t)
    → Closes f g e o s t × (r ≡ f e) × (t.wallets ≡ s.wallets)
close_rows-ok e o f g s t r k l a b h =
    let (r', u, p, q) = >>=-eq-ok (update_escrow e.id f) _ s h in
    let (e', a', b', c', d', i') = update_escrow-ok e.id f s u r' k p in
    let (o', v, x, y) = >>=-eq-ok (update_order e.order_id g) (λ _. pure r') u q in
    let (o'', m, n, w, z) = update_order-ok e.order_id g u v o' l x in ((a, b, cc, cc), cc, cc)

-- Two moves of money in a row
Pays-then : (m n : ℤ) (s t u : Store) → Pays 0ℤ (m -ℤ n) s t → Pays n n t u → Pays n m s u
Pays-then m n s t u (p, q) (p', q') = (grind int_laws, grind int_laws)

of_MovesLocked :
    {A : Type 0} (m : ℤ) (a : A) (s t : Store)
    → MovesLocked m s (ok a, t)
    → (0ℤ <ℤ m) × Pays 0ℤ m s t
of_MovesLocked m a s t (p, q, r) = (p, (grind int_laws, r))

pub SameDeals-then : (s t u : Store) → SameDeals s t → SameDeals t u → SameDeals s u
SameDeals-then s t u (p, q) (p', q') = (p' ∙ p, q' ∙ q)

-- The steps of the transaction of a release, each in the tables that the one before has left
release_steps :
    (now : ℕ) (e : EscrowHold) (o : Order) (fee : ℤ) (s s1 s2 s3 t : Store) (r : EscrowHold)
    → find_escrow e.id s ≡ some e
    → find_order e.order_id s ≡ some o
    → SameRows s s1
    → SameDeals s1 s2
    → Pays 0ℤ (e.amount_minor -ℤ fee) s1 s2
    → SameDeals s2 s3
    → Pays fee fee s2 s3
    → (update_escrow e.id (settle EscrowHoldStatus.released now) >>= λ r.
          update_order e.order_id (complete now) >> pure r)
        s3
      ≡ (ok r, t)
    → Pays fee e.amount_minor s t
      × Closes (settle EscrowHoldStatus.released now) (complete now) e o s t
      × (r ≡ settle EscrowHoldStatus.released now e)
release_steps now e o fee s s1 s2 s3 t r a c (w, d1) d2 m2 d3 m3 h =
    let (d, d4) = SameDeals-then s s2 s3 (SameDeals-then s s1 s2 d1 d2) d3 in
    let ((a', c', x, y), z, w4) =
      close_rows-ok e o (settle EscrowHoldStatus.released now) (complete now) s3 t r (λ _. refl)
        (λ _. refl) (cc) (cc) h in
    let (paid, paid') = Pays-then e.amount_minor fee s1 s2 s3 m2 m3 in ((cc, cc), (a, c, x, y), z)

-- The transaction of a release that has returned
pub release_tx-ok :
    (now : ℕ) (e : EscrowHold) (o : Order) (b v : Wallet) (fee : ℤ) (key : ℕ) (s t : Store)
    (r : EscrowHold)
    → 0ℤ ≤ℤ fee
    → find_escrow e.id s ≡ some e
    → find_order e.order_id s ≡ some o
    → release_tx now e b v fee key s ≡ (ok r, t)
    → (fee <ℤ e.amount_minor)
      × Pays fee e.amount_minor s t
      × Closes (settle EscrowHoldStatus.released now) (complete now) e o s t
      × (r ≡ settle EscrowHoldStatus.released now e)
unfolding release_tx
release_tx-ok now e o b v fee key s t r nonneg a c h =
    let paid = e.amount_minor -ℤ fee in
    let (j, s1, p1, h1) = >>=-eq-ok (post_release now e v fee key) _ s h in
    let (x, s2, p2, h2) = >>=-eq-ok (transfer_locked_balance b.user_id v.user_id paid) _ s1 h1 in
    let (y, s3, p3, h3) = >>=-eq-ok (deduct_fee b.id fee) _ s2 h2 in
    let (q, m2) = of_MovesLocked paid x s1 s2 (
      subst (MovesLocked paid s1) p2
        (transfer_locked_balance-MovesLocked b.user_id v.user_id paid s1)) in
    let (money, rows, result) =
      release_steps now e o fee s s1 s2 s3 t r a c
        (at_return (SameRows s) _ p1 (post_release-SameRows now e v fee key s))
        (at_return (SameDeals s1) _ p2
          (transfer_locked_balance-SameDeals b.user_id v.user_id paid s1))
        m2 (at_return (SameDeals s2) _ p3 (deduct_fee-SameDeals b.id fee s2))
        (deduct_fee-Pays b.id fee s2 s3 nonneg p3) h3 in
    (grind int_laws, money, rows, result)
