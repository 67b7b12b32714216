-- ===== src/Transactions/Received.antt =====
-- What `confirmReceipt` of kahade-backend/src/core/transaction/transaction.service.ts has done when it
-- returns, and what a payment and a receipt leave locked.
use rekberkan.Base.{ℕ, ◌≡◌, refl, sym, ap, ◌∙◌, not, Option, some, is_id}
use mathlib.Core.Path.{subst}
use mathlib.Core.Option.{some-injective}
use rekberkan.Base.Int.{ℤ, ◌+ℤ◌, 0ℤ, ◌<ℤ◌, quot, int_laws}
use rekberkan.Base.Table.{find_by-key}
use rekberkan.Store.{Store, Wallet, Order, OrderStatus, FeePayer, ok, Error, >>=-eq-ok}
use rekberkan.Store.Returns.{found, unless_raised, at_return}
use rekberkan.Wallet.Retry.{alone}
use rekberkan.Wallet.Moves.{transfer_locked_balance}
use rekberkan.Wallet.Sums.{total_balance, total_locked}
use rekberkan.Wallet.Transfers.{MovesLocked, transfer_locked_balance-MovesLocked}
use rekberkan.Escrow.Rows.{find_order, complete}
use rekberkan.Escrow.Frame.{SameDeals, transfer_locked_balance-SameDeals}
use rekberkan.Escrow.Opened.{update_order-rows}
use rekberkan.Orders.Rows.{buyer_id, seller_id, is_paid}
use rekberkan.Orders.Writes.{is_id→eq}
use rekberkan.Orders.Steps.{paid_status}
use rekberkan.Transactions.Paying.{
  total_to_pay, seller_amount, pay_row, pay_transaction, release_hold, pay_out_transaction,
  confirm_receipt,
}
use rekberkan.Transactions.Paid.{caught-ok, pay_transaction-ok}

-- A positive amount has left the locked money of all wallets together; their balances are the same.
abbrev pub Leaves : ℤ → Store → Store → Type 0
Leaves amount s t =
    (0ℤ <ℤ amount)
    × (total_balance t ≡ total_balance s)
    × (total_locked t +ℤ amount ≡ total_locked s)

-- What a receipt has found and done
abbrev pub Received : ℕ → ℕ → ℕ → Store → Store → Order → Type 0
Received now user id s t r =
    (o : Order) × (seller : ℕ) × (find_order id s ≡ some o)
    × (buyer_id o ≡ some user)
    × (seller_id o ≡ some seller)
    × (o.status ≡ OrderStatus.paid)
    × Leaves (seller_amount o) s t
    × (r ≡ complete now o)

Leaves-kept :
    (amount : ℤ) (s t u : Store) → u.wallets ≡ t.wallets → Leaves amount s t → Leaves amount s u
Leaves-kept amount s t u e (p, b, l) = (p, rw e b, rw e l)

-- The transfer leaves the escrows and orders as they are.
pub transfer_deals :
    (user seller : ℕ) (amount : ℤ) (s t : Store) (x : Option Wallet × Option Wallet)
    → transfer_locked_balance user seller amount s ≡ (ok x, t)
    → SameDeals s t
transfer_deals user seller amount s t x h =
    at_return (SameDeals s) (transfer_locked_balance user seller amount s) h
      (transfer_locked_balance-SameDeals user seller amount s)

pay_out-ok :
    (now user seller : ℕ) (o : Order) (s t : Store) (r : Order)
    → find_order o.id s ≡ some o
    → pay_out_transaction now user seller o s ≡ (ok r, t)
    → Leaves (seller_amount o) s t × (r ≡ complete now o)
unfolding pay_out_transaction
pay_out-ok now user seller o s t r a h =
    let (x, s1, p1, h1) = >>=-eq-ok (transfer_locked_balance user seller (seller_amount o)) _ s h in
    let (z, k1, k2, k3, k4, k5) =
      update_order-rows o.id (complete now) (release_hold now o.id s1) t r h1 in
    let (escrows, orders) = transfer_deals user seller (seller_amount o) s s1 x p1 in
    let same : z ≡ o = some-injective _ _ (sym k1 ∙ rw orders a) in
    (
      Leaves-kept (seller_amount o) s s1 t k4 (
          subst (MovesLocked (seller_amount o) s) p1
            (transfer_locked_balance-MovesLocked user seller (seller_amount o) s)),
      k2 ∙ ap (complete now) same,
    )

-- When `confirmReceipt` returns: the caller is the buyer of a paid order, which has a seller; the
-- locked money of all wallets together is less by what the seller gets, which is positive, and the
-- balances are the same in total; the order is completed.
pub confirm_receipt-ok :
    (now user id : ℕ) (s t : Store) (r : Order)
    → confirm_receipt now user id s ≡ (ok r, t)
    → Received now user id s t r
unfolding confirm_receipt
confirm_receipt-ok now user id s t r h =
    let (o, a, h1) = found Error.not_found (find_order id) _ s t r h in
    let (b, h2) = unless_raised (not (is_id (buyer_id o) user)) Error.forbidden _ s t r h1 in
    let (c, h3) = unless_raised (not (is_paid o.status)) Error.bad_request _ s t r h2 in
    let (seller, d, h4) = found Error.bad_request (λ _. seller_id o) _ s t r h3 in
    let (money, result) =
      pay_out-ok now user seller o s t r (rw (find_by-key Order.id id o s.orders a) a)
        (caught-ok Error.bad_request (pay_out_transaction now user seller o) s t r h4) in
    (o, seller, a, is_id→eq (buyer_id o) user b, d, paid_status o.status c, money, result)

-- What stays locked of the fee, by who pays it
abbrev pub fee_left : Order → ℤ
fee_left o = elim o.fee_payer [
  | FeePayer.by_buyer ↦ o.platform_fee_minor
  | FeePayer.by_seller ↦ o.platform_fee_minor
  | FeePayer.by_split ↦ quot o.platform_fee_minor 2 +ℤ quot o.platform_fee_minor 2
  | FeePayer.by_halves ↦ 0ℤ
]

fee_apart :
    (o : Order) (p : FeePayer) → o.fee_payer ≡ p → total_to_pay o ≡ seller_amount o +ℤ fee_left o
fee_apart o FeePayer.by_buyer h = rw h (grind int_laws)
fee_apart o FeePayer.by_seller h = rw h (grind int_laws)
fee_apart o FeePayer.by_split h = rw h (grind int_laws)
fee_apart o FeePayer.by_halves h = rw h (grind int_laws)

left_over : (x y z n a m : ℤ) → y ≡ x +ℤ n → z +ℤ a ≡ y → n ≡ a +ℤ m → z ≡ x +ℤ m
left_over x y z n a m p q r = grind int_laws

-- After a payment, beside no other transaction, and a receipt, the balances are the same in total, and
-- the fee is locked for good: all of it when one side pays it, twice the half when they split it.
pub pay_transaction-then-confirm_receipt :
    (now later user id : ℕ) (o : Order) (s t u : Store) (r v : Order)
    → find_order id s ≡ some o
    → pay_transaction alone now user id s ≡ (ok r, t)
    → confirm_receipt later user id t ≡ (ok v, u)
    → (total_balance u ≡ total_balance s) × (total_locked u ≡ total_locked s +ℤ fee_left o)
pay_transaction-then-confirm_receipt now later user id o s t u r v p h k =
    let (x, a, b, c, (w, d, e, f, g, l), hold, i, j) = pay_transaction-ok now user id s t r h in
    let (y, seller, a', b', c', d', (f', g', l'), i') = confirm_receipt-ok later user id t u v k in
    let same : x ≡ o = some-injective _ _ (sym a ∙ p) in
    let kept : y ≡ pay_row now o = some-injective _ _ (sym a' ∙ j ∙ cc) in
    (
      g' ∙ g,
      left_over _ _ _ _ _ (fee_left o) (rw same at l) (rw kept at l')
          (fee_apart o o.fee_payer refl),
    )
