-- ===== src/Scenarios/Notices.antt =====
-- Deliveries of notifications to the marketplace, with an empty cache in memory mode.
use rekberkan.Base.{
  ℕ, Bool, false, if◌then◌else◌, ◌==◌, ◌&&◌, ◌≡◌, refl, true, none, some, List, [], ◌∷◌, arith,
}
use rekberkan.Base.Int.{pos, ◌≤ℤ◌, ◌+ℤ◌, ◌-ℤ◌, 0ℤ}
use rekberkan.Store.{Store, Withdrawal, Deposit, DepositStatus, ok}
use rekberkan.Wallet.Sums.{total_balance, total_locked}
use rekberkan.Wallet.Bounds.{IsSolvent}
use rekberkan.Withdrawal.Reserve.{locked_elsewhere, open_amount}
use rekberkan.Withdrawal.Direct.{direct_withdrawal}
use rekberkan.Payments.Keys.{Fallback, memory}
use rekberkan.Payments.Notices.{InvoiceStatus, topup_word, order_word, withdrawal_word}
use rekberkan.Payments.Texts.{Text, topup_text, order_text, external_id_of, parts_of, IsNaming}
use rekberkan.Payments.TopUp.{TopUpDto, TopUpMethod, top_up}
use rekberkan.Payments.Processing.{process_xendit_disbursement}
use rekberkan.Payments.Webhooks.{Answer, XenditInvoice, secure_compare, handle_xendit_invoice}
use rekberkan.Payments.Deliveries.{Delivery}
use rekberkan.Payments.Credits.{
  notice, with_credit, IsBegun, top_up_notice_credits, top_up-then-handle_xendit_invoice,
}
use rekberkan.Payments.Disbursed.{disbursement_locks}
use rekberkan.Scenarios.{market, buyer_wallet}

abbrev empty : Fallback
empty k = none

right_token : secure_compare (some 3) (some 3) ≡ true
unfolding secure_compare
right_token = refl

-- A top-up of the buyer's wallet by a hundred
abbrev hundred : XenditInvoice
hundred = notice 5 (topup_word ∷ 11 ∷ 99 ∷ []) InvoiceStatus.paid (pos 100) none

abbrev credited_market : Store
credited_market = with_credit 11 (pos 100) market

top_up_notice_credits_example :
    let (a, _, t) = handle_xendit_invoice memory (some 3) 10 (some 3) hundred empty market in
    (a ≡ Answer.processed)
    × (t ≡ credited_market)
    × (total_balance t ≡ total_balance market +ℤ pos 100)
    × (total_locked t ≡ total_locked market)
    × (0ℤ ≤ℤ pos 100 → IsSolvent market → IsSolvent t)
top_up_notice_credits_example =
    top_up_notice_credits memory (some 3) 10 (some 3) 5 11 (99 ∷ []) InvoiceStatus.paid (pos 100)
      none buyer_wallet empty market right_token refl refl refl

abbrev left_cache : Fallback
left_cache = (handle_xendit_invoice memory (some 3) 10 (some 3) hundred empty market).1

-- Another notification, for the order, comes in between.
abbrev between : List Delivery
between =
    record {
      time = 20;
      token = some 3;
      payload = notice 6 (order_word ∷ 7 ∷ []) InvoiceStatus.expired (pos 500) none;
    }
    ∷ []

abbrev second : Delivery
second = record { time = 30; token = some 3; payload = hundred }

abbrev by_bank : TopUpDto
by_bank = record { amount_minor = pos 2_000_000; method = TopUpMethod.bank_transfer }

-- Texts by numbers: the two words have theirs, and all others one.
abbrev same_text : Text → Text → Bool
same_text [] [] = true
same_text [] (d ∷ ds) = false
same_text (c ∷ cs) [] = false
same_text (c ∷ cs) (d ∷ ds) = c == d && same_text cs ds

same_text→eq : (a b : Text) → same_text a b ≡ true → a ≡ b
same_text→eq [] [] h = refl
same_text→eq [] (d ∷ ds) h = cc
same_text→eq (c ∷ cs) [] h = cc
same_text→eq (c ∷ cs) (d ∷ ds) h = ground (arith, same_text→eq cs ds)

abbrev number_of : Text → ℕ
number_of t =
    if same_text t topup_text
    then topup_word
    else if same_text t order_text
    then order_word
    else 900

word_only :
    (t : Text)
    → (number_of t ≡ topup_word → same_text t topup_text ≡ true)
      × (number_of t ≡ order_word → same_text t order_text ≡ true)
word_only t = (λ h. ground arith, λ h. ground arith)

number_of-IsNaming : IsNaming number_of
number_of-IsNaming = record {
  topup = refl;
  order = refl;
  only_topup = λ t h. same_text→eq t topup_text ((word_only t).0 h);
  only_order = λ t h. same_text→eq t order_text ((word_only t).1 h);
}

-- The date 10 and the random text "A7"
abbrev ten : Text
ten = 49 ∷ 48 ∷ []

abbrev drawn : Text
drawn = 65 ∷ 55 ∷ []

abbrev begun : Store
begun = (top_up number_of 10 ten drawn 1 by_bank market).1

abbrev deposit : Deposit
deposit = record {
  id = 101;
  wallet_id = 11;
  payment_id = 100;
  amount_minor = pos 2_000_000;
  status = DepositStatus.pending;
}

begun-deposit : top_up number_of 10 ten drawn 1 by_bank market ≡ (ok deposit, begun)
unfolding top_up
begun-deposit = refl

top_up-then-handle_xendit_invoice_example :
    let parts = parts_of number_of (external_id_of ten drawn) in
    let (a, _, u) =
      handle_xendit_invoice memory
        (some 3)
        50
        (some 3)
        (notice 8 parts InvoiceStatus.paid (pos 2_000_000) none)
        empty
        begun in
    IsBegun (number_of (external_id_of ten drawn)) deposit begun
    × (a ≡ Answer.processed)
    × (u ≡ begun)
top_up-then-handle_xendit_invoice_example =
    top_up-then-handle_xendit_invoice memory (some 3) number_of 10 ten drawn 1 by_bank market begun
      deposit 50 (some 3) 8 InvoiceStatus.paid (pos 2_000_000) none empty number_of-IsNaming
      (omega arith, (omega arith, tt)) (omega arith, (omega arith, tt)) begun-deposit right_token
      refl

abbrev asked_row : Withdrawal
asked_row = direct_withdrawal 1 60 11 1 31 (pos 200)

abbrev asked_market : Store
asked_market = record market { withdrawals = asked_row ∷ [] }

disbursement_locks_example :
    let parts = some (withdrawal_word ∷ 60 ∷ []) in
    let t = (process_xendit_disbursement 9 parts InvoiceStatus.completed none asked_market).1 in
    let u = (process_xendit_disbursement 9 parts InvoiceStatus.failed none asked_market).1 in
    (locked_elsewhere t ≡ locked_elsewhere asked_market +ℤ open_amount asked_row)
    × (total_balance t ≡ total_balance asked_market)
    × (locked_elsewhere u
        ≡ (locked_elsewhere asked_market +ℤ open_amount asked_row) -ℤ asked_row.amount_minor)
    × (total_balance u ≡ total_balance asked_market)
disbursement_locks_example =
    disbursement_locks 9 60 [] none asked_row buyer_wallet asked_market refl refl
