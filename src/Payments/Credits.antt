-- ===== src/Payments/Credits.antt =====
-- Top-ups that a notification reports as paid (kahade-backend/src/core/payment/webhook.controller.ts),
-- and the top-ups that `topUp` of kahade-backend/src/core/wallet/wallet.service.ts begins.
use rekberkan.Base.{
  ℕ, ◌≡◌, ◌≢◌, refl, ◌∙◌, ◌++◌, true, false, Option, some, List, [], ◌∷◌, arith, ne→==,
}
use rekberkan.Base.Int.{ℤ, pos, ltb_ℤ, ◌+ℤ◌, ◌≤ℤ◌, 0ℤ, int_laws}
use rekberkan.Base.Table.{update_by, sum_rows-update_by, All-update_by}
use rekberkan.Store.{
  Store, Wallet, Payment, PaymentStatus, Deposit, DepositStatus, Error, idr, >>=-eq-ok, existing_or,
  ok, in_transaction,
}
use rekberkan.Escrow.Rows.{find_wallet_id, update_wallet_id}
use rekberkan.Wallet.Sums.{total_balance, total_locked}
use rekberkan.Wallet.Bounds.{IsSound, IsSolvent}
use rekberkan.Store.Returns.{unless_raised, committed}
use rekberkan.Wallet.Rows.{find_wallet}
use rekberkan.Wallet.Moves.{create_wallet}
use rekberkan.Payments.Keys.{KeyCache}
use rekberkan.Payments.Notices.{InvoiceStatus, is_settled, topup_word, order_word, amount_paid}
use rekberkan.Payments.Processing.{
  credited, credit_wallet, process_xendit_payment, process_top_up_payment,
}
use rekberkan.Payments.Webhooks.{
  Answer, XenditInvoice, invoice_key, secure_compare, finish_webhook, is_valid_invoice,
  invoice_process, handle_xendit_invoice,
}
use rekberkan.Payments.Once.{once_acquired}
use rekberkan.Payments.Texts.{
  Text, external_id_of, parts_of, IsNaming, IsWhole, split_whole, external_id_of-IsWhole, not_topup,
  not_order,
}
use rekberkan.Payments.TopUp.{TopUpDto, top_up, top_up_tx, insert_payment, insert_deposit}

-- The tables with the balance of one wallet raised, and all else as it was
abbrev pub with_credit : ℕ → ℤ → Store → Store
with_credit wallet amount s = record s {
  wallets = update_by Wallet.id wallet (credited amount) s.wallets;
}

process_top_up_payment-eq :
    (wallet : ℕ) (status : InvoiceStatus) (amount : ℤ) (w : Wallet) (s : Store)
    → is_settled status ≡ true
    → find_wallet_id wallet s ≡ some w
    → process_top_up_payment (some wallet) status amount s ≡ (ok tt, with_credit wallet amount s)
unfolding process_top_up_payment credit_wallet update_wallet_id
process_top_up_payment-eq wallet status amount w s p f = rw p (ground arith)

credit-IsSolvent :
    (wallet : ℕ) (amount : ℤ) (s : Store)
    → 0ℤ ≤ℤ amount
    → IsSolvent s
    → IsSolvent (with_credit wallet amount s)
credit-IsSolvent wallet amount s h k =
    All-update_by IsSound Wallet.id wallet (credited amount) s.wallets k (λ w _ p. omega int_laws)

-- The last payment of the tables is a pending one under the external identifier, and the deposit, which
-- is pending too, is made for it.
abbrev pub IsBegun : ℕ → Deposit → Store → Type 0
IsBegun external d t =
    (before : List Payment) × (p : Payment) × (t.payments ≡ before ++ p ∷ [])
    × (p.provider_invoice_id ≡ some external)
    × (p.status ≡ PaymentStatus.pending)
    × (d.payment_id ≡ p.id)
    × (d.status ≡ DepositStatus.pending)

insert_payment-ok :
    (now external user : ℕ) (dto : TopUpDto) (s t : Store) (p : Payment)
    → insert_payment now external user dto s ≡ (ok p, t)
    → (t.payments ≡ s.payments ++ p ∷ [])
      × (p.provider_invoice_id ≡ some external)
      × (p.status ≡ PaymentStatus.pending)
unfolding insert_payment
insert_payment-ok now external user dto s t p h = ground arith

insert_deposit-ok :
    (wallet payment : ℕ) (amount : ℤ) (s t : Store) (d : Deposit)
    → insert_deposit wallet payment amount s ≡ (ok d, t)
    → (t.payments ≡ s.payments) × (d.payment_id ≡ payment) × (d.status ≡ DepositStatus.pending)
unfolding insert_deposit
insert_deposit-ok wallet payment amount s t d h = ground arith

top_up-IsBegun :
    (number_of : Text → ℕ) (now : ℕ) (clock random : Text) (user : ℕ) (dto : TopUpDto) (s t : Store)
    (d : Deposit)
    → top_up number_of now clock random user dto s ≡ (ok d, t)
    → IsBegun (number_of (external_id_of clock random)) d t
unfolding top_up top_up_tx
top_up-IsBegun number_of now clock random user dto s t d h =
    let external = number_of (external_id_of clock random) in
    let (_, h1) =
      unless_raised (ltb_ℤ dto.amount_minor (pos 1_000_000)) Error.bad_request _ s t d h in
    let (w, s1, _, h2) =
      >>=-eq-ok (existing_or (find_wallet user s) (create_wallet user idr))
        (λ x. in_transaction (top_up_tx now external user dto x)) s h1 in
    let h3 = committed (top_up_tx now external user dto w) s1 t d h2 in
    let (p, s2, e, h4) = >>=-eq-ok (insert_payment now external user dto) _ s1 h3 in
    let (a, b, c) = insert_payment-ok now external user dto s1 s2 p e in
    let (x, y, z) = insert_deposit-ok w.id p.id dto.amount_minor s2 t d h4 in
    (s1.payments, p, x ∙ a, b, c, y, z)

raised : (t s x m : ℤ) → t +ℤ x ≡ s +ℤ (x +ℤ m) → t ≡ s +ℤ m
raised t s x m h = grind int_laws

kept : (t s x : ℤ) → t +ℤ x ≡ s +ℤ x → t ≡ s
kept t s x h = grind int_laws

abbrev pub notice : ℕ → List ℕ → InvoiceStatus → ℤ → Option ℤ → XenditInvoice
notice id parts status amount paid = record {
  id = some id;
  external_id = some parts;
  status = some status;
  amount = amount;
  paid_amount = paid;
}

module _ (cache : KeyCache) (expected : Option ℕ) where
  open cache use {Entries, held}

  -- The tables that a valid delivery leaves whose processing returns
  pub handled :
      (now : ℕ) (token : Option ℕ) (p : XenditInvoice) (c : Entries) (s t : Store)
      → secure_compare token expected ≡ true
      → held now (invoice_key p.id) c ≡ false
      → is_valid_invoice p ≡ true
      → invoice_process now p s ≡ (ok tt, t)
      → let (a, _, u) = handle_xendit_invoice cache expected now token p c s in
        (a ≡ Answer.processed) × (u ≡ t)
  unfolding handle_xendit_invoice finish_webhook
  handled now token p c s t a h v m =
      rw
        (
          a,
          once_acquired cache now (invoice_key p.id) (is_valid_invoice p) (invoice_process now p) c
              s h,
          v,
          m,
        )
        (refl, refl)

  -- A notification with the right token, whose key is free and whose external identifier begins with
  -- "topup" and a wallet that is there, with the status PAID or SETTLED: it is processed, and raises
  -- the balance of the wallet by the amount that was paid, or by the amount where none or zero was
  -- paid. Nothing else in the tables changes: no deposit, payment or journal, and no version. The sum
  -- of the balances grows by the amount and the sum of what is locked stays, and an amount that is
  -- not negative keeps the bounds of every wallet.
  pub top_up_notice_credits :
      (now : ℕ) (token : Option ℕ) (id wallet : ℕ) (rest : List ℕ) (status : InvoiceStatus)
      (amount : ℤ) (paid : Option ℤ) (w : Wallet) (c : Entries) (s : Store)
      → secure_compare token expected ≡ true
      → held now (invoice_key (some id)) c ≡ false
      → is_settled status ≡ true
      → find_wallet_id wallet s ≡ some w
      → let p = notice id (topup_word ∷ wallet ∷ rest) status amount paid in
        let (a, _, t) = handle_xendit_invoice cache expected now token p c s in
        let m = amount_paid paid amount in
        (a ≡ Answer.processed)
        × (t ≡ with_credit wallet m s)
        × (total_balance t ≡ total_balance s +ℤ m)
        × (total_locked t ≡ total_locked s)
        × (0ℤ ≤ℤ m → IsSolvent s → IsSolvent t)
  unfolding process_xendit_payment
  top_up_notice_credits now token id wallet rest status amount paid w c s a h b f =
      let p = notice id (topup_word ∷ wallet ∷ rest) status amount paid in
      let m = amount_paid paid amount in
      let (done, e) =
        handled now token p c s (with_credit wallet m s) a h refl
          (process_top_up_payment-eq wallet status m w s b f) in
      (
        done,
        e,
        rw e (
            raised _ _ w.balance_minor m (
              sum_rows-update_by Wallet.balance_minor Wallet.id wallet (credited m) w s.wallets f)),
        rw e (
            kept _ _ w.locked_minor
              (sum_rows-update_by Wallet.locked_minor Wallet.id wallet (credited m) w s.wallets f)),
        (λ x y. rw e (credit-IsSolvent wallet m s x y)),
      )

  -- A delivery for an identifier of one part, which is neither of the words
  unread :
      (external later : ℕ) (token : Option ℕ) (id : ℕ) (status : InvoiceStatus) (amount : ℤ)
      (paid : Option ℤ) (c : Entries) (t : Store)
      → external ≢ topup_word
      → external ≢ order_word
      → secure_compare token expected ≡ true
      → held later (invoice_key (some id)) c ≡ false
      → let (a, _, u) =
          handle_xendit_invoice cache expected later token
            (notice id (external ∷ []) status amount paid)
            c
            t in
        (a ≡ Answer.processed) × (u ≡ t)
  unfolding process_xendit_payment
  unread external later token id status amount paid c t x y a h =
      handled later token (notice id (external ∷ []) status amount paid) c t t a h refl
        (rw (ne→== external topup_word x, ne→== external order_word y) refl)

  -- A `topUp` that returns leaves a pending deposit for a pending payment, which holds the external
  -- identifier that `topUp` has made. When the notification comes that names this identifier, "TOPUP-" with the digits of the date, a dash and
  -- a random text, none of which has an underscore, and its token is right and its key free: it is
  -- answered as processed, whatever its status and amount, and the tables stay as `topUp` has left them.
  pub top_up-then-handle_xendit_invoice :
      (number_of : Text → ℕ) (now : ℕ) (clock random : Text) (user : ℕ) (dto : TopUpDto)
      (s t : Store) (d : Deposit) (later : ℕ) (token : Option ℕ) (id : ℕ) (status : InvoiceStatus)
      (amount : ℤ) (paid : Option ℤ) (c : Entries)
      → IsNaming number_of
      → IsWhole clock
      → IsWhole random
      → top_up number_of now clock random user dto s ≡ (ok d, t)
      → secure_compare token expected ≡ true
      → held later (invoice_key (some id)) c ≡ false
      → let parts = parts_of number_of (external_id_of clock random) in
        let (a, _, u) =
          handle_xendit_invoice cache expected later token
            (notice id parts status amount paid)
            c
            t in
        IsBegun (number_of (external_id_of clock random)) d t × (a ≡ Answer.processed) × (u ≡ t)
  top_up-then-handle_xendit_invoice number_of now clock random user dto s t d later token id status
        amount paid c n p q run a h =
      let text = external_id_of clock random in
      let one = split_whole text (external_id_of-IsWhole clock random p q) in
      let (done, e) =
        unread (number_of text) later token id status amount paid c t
          (not_topup number_of clock random n) (not_order number_of clock random n) a h in
      (top_up-IsBegun number_of now clock random user dto s t d run, rw one done, rw one e)
