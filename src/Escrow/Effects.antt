-- ===== src/Escrow/Effects.antt =====
-- What a release and a refund of kahade-backend/src/core/escrow/escrow.service.ts have done when
-- they return: the guards that held, the money that moved, and the rows of the escrow and its order.
use rekberkan.Base.{ℕ, ◌≡◌, false, some, arith, inl, inr, Option-cases, Bool-cases}
use rekberkan.Base.Int.{ℤ, ◌+ℤ◌, ◌-ℤ◌, ◌≤ℤ◌, 0ℤ, ltb_ℤ, int_laws}
use rekberkan.Base.Table.{sum_rows-update_by, find_by-update_by, update_by}
use rekberkan.Store.{Store, Wallet, EscrowHold, Order, ok}
use rekberkan.Wallet.Sums.{total_balance, total_locked}
use rekberkan.Escrow.Rows.{
  find_escrow, find_order, find_wallet_id, update_wallet_id, update_escrow, update_order,
}
use rekberkan.Escrow.Settle.{deduct_fee, pay_fee}

-- The two sums of money, each lowered by an amount.
abbrev pub Pays : ℤ → ℤ → Store → Store → Type 0
Pays balance locked s t =
    (total_balance t +ℤ balance ≡ total_balance s) × (total_locked t +ℤ locked ≡ total_locked s)

lowered : (x y a m : ℤ) → y +ℤ a ≡ x +ℤ (a -ℤ m) → y +ℤ m ≡ x
lowered x y a m h = grind int_laws

by_nothing : (x m : ℤ) → 0ℤ ≤ℤ m → ltb_ℤ 0ℤ m ≡ false → x +ℤ m ≡ x
by_nothing x m p q = grind int_laws

pay_fee-Pays :
    (wallet : ℕ) (fee : ℤ) (w : Wallet) (s : Store)
    → find_wallet_id wallet s ≡ some w
    → Pays fee fee s (record s { wallets = update_by Wallet.id wallet (pay_fee fee) s.wallets })
pay_fee-Pays wallet fee w s e = (
  lowered _ _ w.balance_minor fee
      (sum_rows-update_by Wallet.balance_minor Wallet.id wallet (pay_fee fee) w s.wallets e),
  lowered _ _ w.locked_minor fee
      (sum_rows-update_by Wallet.locked_minor Wallet.id wallet (pay_fee fee) w s.wallets e),
)

pub deduct_fee-Pays :
    (wallet : ℕ) (fee : ℤ) (s t : Store)
    → 0ℤ ≤ℤ fee
    → deduct_fee wallet fee s ≡ (ok tt, t)
    → Pays fee fee s t
unfolding deduct_fee update_wallet_id
deduct_fee-Pays wallet fee s t p h = elim (Bool-cases (ltb_ℤ 0ℤ fee)) [
  | inr q ↦
      ground (arith, by_nothing (total_balance s) fee p q, by_nothing (total_locked s) fee p q)
  | inl q ↦ elim (Option-cases (find_wallet_id wallet s)) [
    | inl e ↦ ground arith
    | inr (w, e) ↦ ground (arith, pay_fee-Pays wallet fee w s e)
  ]
]

-- A write to the row of an escrow that is there, and to that of an order.
pub update_escrow-ok :
    (id : ℕ) (f : EscrowHold → EscrowHold) (s t : Store) (r : EscrowHold)
    → ((e : EscrowHold) → (f e).id ≡ e.id)
    → update_escrow id f s ≡ (ok r, t)
    → (e : EscrowHold) × (find_escrow id s ≡ some e)
      × (find_escrow id t ≡ some (f e))
      × (r ≡ f e)
      × (t.wallets ≡ s.wallets)
      × (t.orders ≡ s.orders)
unfolding update_escrow
update_escrow-ok id f s t r k h = elim (Option-cases (find_escrow id s)) [
  | inl e ↦ ground arith
  | inr (e, p) ↦ (
    e,
    p,
    ground (arith, find_by-update_by EscrowHold.id id id f s.escrows k),
    ground arith,
    ground arith,
    ground arith,
  )
]

pub update_order-ok :
    (id : ℕ) (f : Order → Order) (s t : Store) (r : Order)
    → ((o : Order) → (f o).id ≡ o.id)
    → update_order id f s ≡ (ok r, t)
    → (o : Order) × (find_order id s ≡ some o)
      × (find_order id t ≡ some (f o))
      × (t.wallets ≡ s.wallets)
      × (t.escrows ≡ s.escrows)
unfolding update_order
update_order-ok id f s t r k h = elim (Option-cases (find_order id s)) [
  | inl e ↦ ground arith
  | inr (o, p) ↦ (
    o,
    p,
    ground (arith, find_by-update_by Order.id id id f s.orders k),
    ground arith,
    ground arith,
  )
]
