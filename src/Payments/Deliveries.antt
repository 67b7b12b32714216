-- ===== src/Payments/Deliveries.antt =====
-- Deliveries of invoice notifications (`handleXenditInvoice` of
-- kahade-backend/src/core/payment/webhook.controller.ts): what one ends with, and what later ones find.
use rekberkan.Base.{ℕ, ◌≡◌, ◌≤◌, ◌<◌, true, false, Option, none, some, List, [], ◌∷◌, arith}
use rekberkan.Base.Int.{ℤ}
use rekberkan.Store.{Store, Order, ok}
use rekberkan.Store.Rules.{
  IsAtomic, IsAtomic-if, IsReadOnly-IsAtomic, pure-IsReadOnly, in_transaction-IsAtomic, reads,
  atomic,
}
use rekberkan.Escrow.Rows.{update_order}
use rekberkan.Payments.Keys.{KeyCache}
use rekberkan.Payments.Notices.{
  InvoiceStatus, is_settled, is_word, first_part, second_part, topup_word, order_word, amount_paid,
}
use rekberkan.Payments.Processing.{
  process_xendit_payment, process_top_up_payment, process_order_payment, process_order,
  settle_order, credit_wallet, named,
}
use rekberkan.Payments.Webhooks.{
  Answer, XenditInvoice, invoice_key, is_valid_invoice, invoice_process, handle_xendit_invoice,
}
use rekberkan.Payments.Once.{Guarded, day_after}

-- Processing that throws has changed nothing.
settle_order-IsAtomic :
    (now id : ℕ) (status : InvoiceStatus) (o : Option Order)
    → IsAtomic (settle_order now id status o)
unfolding settle_order update_order
settle_order-IsAtomic now id status none = record { undone = λ s t e h. ground arith }
settle_order-IsAtomic now id status (some o) = record { undone = λ s t e h. ground arith }

process_order_payment-IsAtomic :
    (now : ℕ) (order : Option ℕ) (status : InvoiceStatus)
    → IsAtomic (process_order_payment now order status)
unfolding process_order_payment process_order
process_order_payment-IsAtomic now none status = search (reads, atomic)
process_order_payment-IsAtomic now (some id) status = search (reads, atomic, settle_order-IsAtomic)

process_top_up_payment-IsAtomic :
    (wallet : Option ℕ) (status : InvoiceStatus) (amount : ℤ)
    → IsAtomic (process_top_up_payment wallet status amount)
unfolding process_top_up_payment
process_top_up_payment-IsAtomic wallet status amount =
    IsAtomic-if (is_settled status) (in_transaction-IsAtomic (named wallet (credit_wallet amount)))
      (IsReadOnly-IsAtomic (pure-IsReadOnly tt))

pub process_xendit_payment-IsAtomic :
    (now : ℕ) (parts : List ℕ) (status : InvoiceStatus) (amount : ℤ) (paid : Option ℤ)
    → IsAtomic (process_xendit_payment now parts status amount paid)
unfolding process_xendit_payment
process_xendit_payment-IsAtomic now parts status amount paid =
    IsAtomic-if (is_word (first_part parts) topup_word)
      (process_top_up_payment-IsAtomic (second_part parts) status (amount_paid paid amount))
      (IsAtomic-if (is_word (first_part parts) order_word)
        (process_order_payment-IsAtomic now (second_part parts) status)
        (IsReadOnly-IsAtomic (pure-IsReadOnly tt)))

-- A delivery, with its time and its token
pub record Delivery : Type 0 where
  pub time : ℕ
  pub token : Option ℕ
  pub payload : XenditInvoice

module _ (cache : KeyCache) (expected : Option ℕ) where
  open cache use {Entries, held, set, del, del_free}

  unfoldable pub run_deliveries : List Delivery → Entries → Store → Entries × Store
  run_deliveries [] c s = (c, s)
  run_deliveries (d ∷ ds) c s =
      let (_, c', s') = handle_xendit_invoice cache expected d.time d.token d.payload c s in
      run_deliveries ds c' s'

  abbrev pub Within : ℕ → Delivery → Type 0
  Within now d = (now ≤ d.time) × (d.time < day_after cache now)

  -- What a delivery that is not a duplicate, with the right token, ends with
  abbrev pub Ended : ℕ → XenditInvoice → Store → Answer × Entries × Store → Type 0
  Ended now p s (Answer.processed, c, t) =
      (is_valid_invoice p ≡ true)
      × (invoice_process now p s ≡ (ok tt, t))
      × Guarded cache now (day_after cache now) (invoice_key p.id) c
  Ended now p s (Answer.duplicate, c, t) = ⊥
  Ended now p s (Answer.thrown e, c, t) =
      (t ≡ s)
      × (is_valid_invoice p ≡ true → (b : ℕ) → held b (invoice_key p.id) c ≡ false)
      × (is_valid_invoice p ≡ false → Guarded cache now (day_after cache now) (invoice_key p.id) c)
