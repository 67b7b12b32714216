-- ===== src/Transactions/Marked.antt =====
-- Orders that kahade-backend/src/core/transaction/transaction.service.ts marks as paid with `updateStatus`,
-- before `confirmReceipt`.
use rekberkan.Base.{ℕ, true, ◌≡◌, ◌≢◌, refl, sym, none, some, List, [], ◌∷◌, arith}
use mathlib.Core.Path.{subst}
use rekberkan.Base.Int.{ℤ, ◌-ℤ◌, int_laws, ◌≤ℤ◌, ◌<ℤ◌, 0ℤ}
use rekberkan.Base.Table.{find_by, update_by, find_by-key, find_by-update_by}
use rekberkan.Store.{
  Store, Wallet, EscrowHold, EscrowHoldStatus, Order, OrderStatus, InitiatorRole, ok, ◌>>◌,
}
use rekberkan.Wallet.Rows.{credit, spend_locked, put_wallet, find_wallet}
use rekberkan.Wallet.Sums.{find-put_wallet, transfer_locked_balance_lem}
use rekberkan.Escrow.Rows.{settle, find_escrow, find_order, update_order, complete}
use rekberkan.Orders.Rows.{buyer_id, seller_id, is_party}
use rekberkan.Transactions.Paying.{
  seller_amount, release_hold, pay_out_transaction, confirm_receipt,
}
use rekberkan.Transactions.Closing.{update_transaction_status}

-- A write to an order that is there
abbrev pub put_order : ℕ → (Order → Order) → Store → Store
put_order id f s = record s { orders = update_by Order.id id f s.orders }

pub update_order_found :
    (id : ℕ) (f : Order → Order) (o : Order) (s : Store)
    → find_order id s ≡ some o
    → update_order id f s ≡ (ok (f o), put_order id f s)
unfolding update_order
update_order_found id f o s h = ground arith

pub put_order_found :
    (id : ℕ) (f : Order → Order) (o : Order) (s : Store)
    → ((x : Order) → (f x).id ≡ x.id)
    → find_order id s ≡ some o
    → find_order id (put_order id f s) ≡ some (f o)
put_order_found id f o s k h = ground (arith, find_by-update_by Order.id id id f s.orders k)

buyer-is_party :
    (user : ℕ) (o : Order) (r : InitiatorRole)
    → o.initiator_role ≡ r
    → buyer_id o ≡ some user
    → is_party user o ≡ true
buyer-is_party user o InitiatorRole.buyer e h = ground arith
buyer-is_party user o InitiatorRole.seller e h = ground arith

abbrev pub mark : OrderStatus → Order → Order
mark st o = record o { status = st }

mark_paid :
    (user id : ℕ) (o : Order) (s : Store)
    → find_order id s ≡ some o
    → is_party user o ≡ true
    → o.status ≡ OrderStatus.accepted
    → update_transaction_status user id OrderStatus.paid s
      ≡ (ok (mark OrderStatus.paid o), put_order id (mark OrderStatus.paid) s)
unfolding update_transaction_status
mark_paid user id o s a p h = ground (arith, update_order_found id (mark OrderStatus.paid) o s a)

-- A write to a row that is not there
update_by_absent :
    {A : Type 0} (key : A → ℕ) (k : ℕ) (f : A → A) (rows : List A)
    → find_by key k rows ≡ none
    → update_by key k f rows ≡ rows
update_by_absent key k f [] h = refl
update_by_absent key k f (r ∷ rows) h = ground (arith, update_by_absent key k f rows)

-- The amount out of what the first user has locked, into the balance of the second
abbrev moved : ℕ → ℕ → ℤ → Store → Store
moved user seller m s = put_wallet seller (credit m) (put_wallet user (spend_locked m) s)

-- The tables that a receipt leaves
abbrev received : ℕ → ℕ → ℕ → Order → Store → Store
received now user seller o s =
    put_order o.id (complete now) (release_hold now o.id (moved user seller (seller_amount o) s))

pay_out_returns :
    (now user seller : ℕ) (o : Order) (w x : Wallet) (s : Store)
    → find_order o.id s ≡ some o
    → find_wallet user s ≡ some w
    → find_wallet seller s ≡ some x
    → 0ℤ <ℤ seller_amount o
    → seller_amount o ≤ℤ w.locked_minor
    → pay_out_transaction now user seller o s ≡ (ok (complete now o), received now user seller o s)
unfolding pay_out_transaction
pay_out_returns now user seller o w x s a e f p q =
    let s2 = release_hold now o.id (moved user seller (seller_amount o) s) in
    ground (
      arith,
      transfer_locked_balance_lem user seller (seller_amount o) w x s e f p q,
      update_order_found o.id (complete now) o s2 a,
    )

confirm_receipt_returns :
    (now user id seller : ℕ) (o : Order) (w x : Wallet) (s : Store)
    → find_order id s ≡ some o
    → buyer_id o ≡ some user
    → seller_id o ≡ some seller
    → o.status ≡ OrderStatus.paid
    → find_wallet user s ≡ some w
    → find_wallet seller s ≡ some x
    → 0ℤ <ℤ seller_amount o
    → seller_amount o ≤ℤ w.locked_minor
    → confirm_receipt now user id s ≡ (ok (complete now o), received now user seller o s)
unfolding confirm_receipt
confirm_receipt_returns now user id seller o w x s a b c d e f p q = ground (
  arith,
  pay_out_returns now user seller o w x s
      (subst (λ j. find_order j s ≡ some o) (sym (find_by-key Order.id id o s.orders a)) a) e f p q,
)

-- What the two wallets hold once the amount has moved, with that of any other user as it was
abbrev pub PaysOut : ℕ → ℕ → ℕ → ℤ → Wallet → Wallet → Store → Store → Type 0
PaysOut user seller v m w x s t =
    (find_wallet user t ≡ some (spend_locked m w))
    × (find_wallet seller t ≡ some (credit m x))
    × (find_wallet v t ≡ find_wallet v s)

moved-PaysOut :
    (user seller v : ℕ) (m : ℤ) (w x : Wallet) (s : Store)
    → user ≢ seller
    → v ≢ user
    → v ≢ seller
    → find_wallet user s ≡ some w
    → find_wallet seller s ≡ some x
    → PaysOut user seller v m w x s (moved user seller m s)
moved-PaysOut user seller v m w x s n g h e f =
    let s1 = put_wallet user (spend_locked m) s in
    let first = λ (y : ℕ). find-put_wallet y user (spend_locked m) s (λ _. refl) in
    let second = λ (y : ℕ). find-put_wallet y seller (credit m) s1 (λ _. refl) in
    (
      ground (arith, first user, second user),
      ground (arith, first seller, second seller),
      ground (arith, first v, second v),
    )

taken_from : (a l m : ℤ) → 0ℤ <ℤ a → l ≡ m → l -ℤ a <ℤ m
taken_from a l m p q = rw q (omega (int_laws, p))

-- An accepted order without an escrow, for which nothing has been locked: its buyer marks it as paid
-- with `updateStatus` and confirms it. Where what the buyer has locked, as much as the escrow of
-- another order holds, covers what the seller gets, both calls return: the order is completed, the
-- wallet of the buyer has paid that out of what it has locked, the wallet of the seller has been
-- credited with it, no other wallet has changed, and no escrow has: that of the other order stands,
-- and the wallet has less locked than it holds.
pub update_status-then-confirm_receipt :
    (later user id seller v other : ℕ) (o : Order) (w x : Wallet) (e : EscrowHold) (s : Store)
    → find_order id s ≡ some o
    → buyer_id o ≡ some user
    → seller_id o ≡ some seller
    → user ≢ seller
    → v ≢ user
    → v ≢ seller
    → o.status ≡ OrderStatus.accepted
    → find_by EscrowHold.order_id o.id s.escrows ≡ none
    → find_escrow other s ≡ some e
    → find_wallet user s ≡ some w
    → find_wallet seller s ≡ some x
    → w.locked_minor ≡ e.amount_minor
    → 0ℤ <ℤ seller_amount o
    → seller_amount o ≤ℤ w.locked_minor
    → (t : Store) × ((update_transaction_status user id OrderStatus.paid
            >> confirm_receipt later user id)
          s
        ≡ (ok (complete later (mark OrderStatus.paid o)), t))
      × PaysOut user seller v (seller_amount o) w x s t
      × (t.escrows ≡ s.escrows)
      × (find_escrow other t ≡ some e)
      × ((spend_locked (seller_amount o) w).locked_minor <ℤ e.amount_minor)
update_status-then-confirm_receipt later user id seller v other o w x e s a b c n y z d h k f g l p
      q =
    let s1 = put_order id (mark OrderStatus.paid) s in
    let t = received later user seller (mark OrderStatus.paid o) s1 in
    let same : t.escrows ≡ s.escrows =
      update_by_absent EscrowHold.order_id o.id (settle EscrowHoldStatus.released later) s.escrows
        h in
    (
      t,
      rw (mark_paid user id o s a (buyer-is_party user o o.initiator_role refl b) d) (
          confirm_receipt_returns later user id seller (mark OrderStatus.paid o) w x s1
            (put_order_found id (mark OrderStatus.paid) o s (λ _. refl) a) b c refl f g p q),
      moved-PaysOut user seller v (seller_amount o) w x s n y z f g,
      same,
      rw same k,
      taken_from (seller_amount o) w.locked_minor e.amount_minor p l,
    )
