-- ===== src/Scenarios/Trades.antt =====
-- Runs of the order service: an order that was accepted, with a buyer who can pay for it.
use rekberkan.Base.{
  ℕ, true, ◌≡◌, refl, none, some, ◌==◌, inl, inr, Bool-cases, List, [], ◌∷◌, arith,
}
use rekberkan.Base.Int.{pos, ◌+ℤ◌, ◌-ℤ◌, neg}
use rekberkan.Ledger.Journal.{refers, new_entries, clashes}
use rekberkan.Store.{Store, Wallet, Order, OrderStatus, InitiatorRole, FeePayer, OrderCategory}
use rekberkan.Orders.Rows.{PlatformConfig, CreateOrderDto, new_order}
use rekberkan.Orders.Invites.{create_order, expiry}
use rekberkan.Orders.Lookup.{Shows, row, taken_by, create_order-then-get_order}
use rekberkan.Orders.Payments.{pay_order, confirm_delivery}
use rekberkan.Orders.Paid.{Paid, paid_row, pay_order-ok}
use rekberkan.Orders.Life.{view, deal, Life, Parted}
use rekberkan.Orders.Sound.{IsSound, Sound-end, Backed}
use rekberkan.Orders.Settling.{pay_order-Sound, confirm_delivery-Sound}
use rekberkan.Orders.Runs.{Call, Request, run, run_refines, run-Parted, run_completed}
use rekberkan.Orders.Delivered.{Delivered, confirm_delivery-ok}
use rekberkan.Escrow.Rows.{complete}
use rekberkan.Scenarios.{buyer_wallet, seller_wallet, paid_order, market}

abbrev rich_wallet : Wallet
rich_wallet = record buyer_wallet { balance_minor = pos 60_000; locked_minor = pos 0 }

abbrev accepted_order : Order
accepted_order = record paid_order {
  status = OrderStatus.pending_accept;
  auto_release_at = none;
  paid_at = none;
}

abbrev shop : Store
shop = record market {
  wallets = rich_wallet ∷ seller_wallet ∷ [];
  escrows = [];
  orders = accepted_order ∷ [];
}

abbrev paid_shop : Store
paid_shop = (pay_order 100 1 7 (some 9) shop).1

abbrev delivered_shop : Store
delivered_shop = (confirm_delivery 200 1 7 (some 10) paid_shop).1

pay_order-ok_example : Paid 100 1 7 shop paid_shop (paid_row 100 accepted_order)
unfolding pay_order ◌+ℤ◌ neg ◌-ℤ◌ new_entries refers
pay_order-ok_example =
    pay_order-ok 100 1 7 (some 9) shop paid_shop (paid_row 100 accepted_order) refl refl

shop-IsSound : IsSound shop
shop-IsSound = record {
  leads = λ id. Life.stays refl;
  backed = λ id e h. cc;
  distinct = (refl, tt);
  keyed = tt;
}

paid_shop-IsSound : IsSound paid_shop
paid_shop-IsSound = Sound-end shop paid_shop (pay_order-Sound 100 1 7 (some 9) shop shop-IsSound)

confirm_delivery-ok_example :
    Delivered 200 1 7 paid_shop delivered_shop (complete 200 (paid_row 100 accepted_order))
unfolding pay_order confirm_delivery ◌+ℤ◌ neg ◌-ℤ◌ new_entries refers clashes
confirm_delivery-ok_example =
    confirm_delivery-ok 200 1 7 (some 10) (paid_row 100 accepted_order) paid_shop delivered_shop
      (complete 200 (paid_row 100 accepted_order)) paid_shop-IsSound refl (omega arith) refl

abbrev config : PlatformConfig
config = record { fee_percentage = 1; invite_expiry_days = 7 }

-- The buyer pays, confirms, and asks to cancel what is completed.
abbrev day_of_calls : List Request
day_of_calls =
    record { user = 1; now = 100; token = 71; call = Call.pay 7 (some 9) }
    ∷ record { user = 1; now = 200; token = 72; call = Call.confirm 7 (some 10) }
    ∷ record { user = 1; now = 300; token = 73; call = Call.cancel 7 }
    ∷ []

run_refines_example : Life (deal 7 shop) (deal 7 (run config day_of_calls shop))
run_refines_example = run_refines config day_of_calls shop 7 shop-IsSound

shop-Parted : (id : ℕ) → Parted (deal id shop)
shop-Parted id = elim (Bool-cases (7 == id)) [
  | inl e ↦ rw e (inr (2, refl, omega arith))
  | inr e ↦ rw e tt
]

run-Parted_example :
    ((id : ℕ) → Parted (deal id (run config day_of_calls shop)))
    × Backed (run config day_of_calls shop)
run-Parted_example = run-Parted config day_of_calls shop shop-IsSound shop-Parted

run_completed_example :
    deal 7 (run config day_of_calls delivered_shop)
    ≡ some (record (view accepted_order) { status = OrderStatus.completed })
unfolding pay_order confirm_delivery ◌+ℤ◌ neg ◌-ℤ◌ new_entries refers clashes
run_completed_example =
    run_completed config day_of_calls delivered_shop 7
      (record (view accepted_order) { status = OrderStatus.completed })
      (Sound-end paid_shop delivered_shop
        (confirm_delivery-Sound 200 1 7 (some 10) paid_shop paid_shop-IsSound))
      refl refl

-- A seller creates an order for a thousand.
abbrev offer : CreateOrderDto
offer = record {
  initiator_role = InitiatorRole.seller;
  title = 5;
  description = 6;
  category = OrderCategory.services;
  amount_minor = pos 1000;
  fee_payer = FeePayer.by_halves;
  holding_period_days = 2;
  custom_terms = none;
}

abbrev offered : Order
offered = new_order 100 50 2 offer (pos 10) 80 (expiry config 50)

create_order-then-get_order_example :
    let t = (create_order config 50 80 2 offer true market).1 in
    (offered ≡ new_order 100 50 2 offer (pos 10) 80 (expiry config 50))
    × Shows 60 900_000_000 70 80 2 1
        (row config 50 80 2 100 offer (pos 10))
        (taken_by config 50 80 2 100 offer (pos 10) 1)
        t
unfolding create_order
create_order-then-get_order_example =
    create_order-then-get_order config 50 60 900_000_000 70 80 2 1 offer true market
      (create_order config 50 80 2 offer true market).1 offered refl refl (omega arith)
      (omega arith) (omega arith) (omega arith)
