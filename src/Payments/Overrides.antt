-- ===== src/Payments/Overrides.antt =====
-- What a notification does to an order (kahade-backend/src/core/payment/webhook.controller.ts).
use rekberkan.Base.{eq→==, ℕ, ◌≡◌, refl, ap, true, false, Option, some, List, ◌∷◌, arith}
use mathlib.Core.Option
use rekberkan.Base.Int.{ℤ}
use rekberkan.Base.Table.{update_by, find_by-update_by}
use rekberkan.Store.{Store, Order, ok}
use rekberkan.Escrow.Rows.{find_order, update_order}
use rekberkan.Payments.Keys.{KeyCache}
use rekberkan.Payments.Notices.{InvoiceStatus, is_settled, is_lost, order_word}
use rekberkan.Payments.Processing.{
  process_xendit_payment, process_order_payment, process_order, settle_order, order_paid,
  order_cancelled,
}
use rekberkan.Payments.Webhooks.{Answer, invoice_key, secure_compare, handle_xendit_invoice}
use rekberkan.Payments.Credits.{notice, handled}

abbrev pub with_order : ℕ → (Order → Order) → Store → Store
with_order id f s = record s { orders = update_by Order.id id f s.orders }

settled :
    (now id : ℕ) (status : InvoiceStatus) (o : Order) (s : Store)
    → find_order id s ≡ some o
    → is_settled status ≡ true
    → process_order_payment now (some id) status s ≡ (ok tt, with_order id (order_paid now) s)
unfolding process_order_payment process_order settle_order update_order
settled now id status o s f p = ground arith

lost :
    (now id : ℕ) (status : InvoiceStatus) (o : Order) (s : Store)
    → find_order id s ≡ some o
    → is_settled status ≡ false
    → is_lost status ≡ true
    → process_order_payment now (some id) status s ≡ (ok tt, with_order id (order_cancelled now) s)
unfolding process_order_payment process_order settle_order update_order
lost now id status o s f p q = ground arith

not_settled : (status : InvoiceStatus) → is_lost status ≡ true → is_settled status ≡ false
not_settled InvoiceStatus.paid h = cc
not_settled InvoiceStatus.settled h = cc
not_settled InvoiceStatus.expired h = refl
not_settled InvoiceStatus.failed h = refl
not_settled InvoiceStatus.completed h = refl
not_settled (InvoiceStatus.other_status n) h = refl

row_after :
    (id : ℕ) (f : Order → Order) (o : Order) (s : Store)
    → ((x : Order) → (f x).id ≡ x.id)
    → find_order id s ≡ some o
    → find_order id (with_order id f s) ≡ some (f o)
row_after id f o s k e =
    rw (find_by-update_by Order.id id id f s.orders k, eq→== id id refl) (ap (Option.map f) e)

module _ (cache : KeyCache) (expected : Option ℕ) where
  open cache use {Entries, held}

  -- A notification with the right token, whose key is free and whose external identifier begins with
  -- "order" and an order that is there, whatever the status of the order. PAID and SETTLED make the
  -- order paid, EXPIRED and FAILED make it cancelled, and no other row of any table changes: a paid
  -- order gets no escrow, and an order that is cancelled keeps the one it has, with its money locked.
  pub order_notice_overrides :
      (now : ℕ) (token : Option ℕ) (id order : ℕ) (rest : List ℕ) (status : InvoiceStatus)
      (amount : ℤ) (paid : Option ℤ) (o : Order) (c : Entries) (s : Store)
      → secure_compare token expected ≡ true
      → held now (invoice_key (some id)) c ≡ false
      → find_order order s ≡ some o
      → let p = notice id (order_word ∷ order ∷ rest) status amount paid in
        let (a, _, t) = handle_xendit_invoice cache expected now token p c s in
        (is_settled status ≡ true
          → (a ≡ Answer.processed)
            × (t ≡ with_order order (order_paid now) s)
            × (find_order order t ≡ some (order_paid now o)))
        × (is_lost status ≡ true
            → (a ≡ Answer.processed)
              × (t ≡ with_order order (order_cancelled now) s)
              × (find_order order t ≡ some (order_cancelled now o)))
  unfolding process_xendit_payment
  order_notice_overrides now token id order rest status amount paid o c s a h f =
      let p = notice id (order_word ∷ order ∷ rest) status amount paid in
      (
        (λ b.
            let (done, e) =
              handled cache expected now token p c s (with_order order (order_paid now) s) a h refl
                (settled now order status o s f b) in
            (done, e, rw e (row_after order (order_paid now) o s (λ _. refl) f))),
        (λ b.
            let (done, e) =
              handled cache expected now token p c s (with_order order (order_cancelled now) s) a h
                refl (lost now order status o s f (not_settled status b) b) in
            (done, e, rw e (row_after order (order_cancelled now) o s (λ _. refl) f))),
      )
