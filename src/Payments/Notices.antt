-- ===== src/Payments/Notices.antt =====
-- The values in the notifications of the payment providers, and the tests on them
-- (kahade-backend/src/core/payment/webhook.controller.ts).
use rekberkan.Base.{ℕ, Bool, true, false, Option, none, some, List, [], ◌∷◌, if◌then◌else◌, ◌==◌}
use rekberkan.Base.Int.{ℤ, eqb_ℤ, 0ℤ}

-- The words that external identifiers begin with, and the text "Unknown error"
abbrev pub topup_word : ℕ
topup_word = 0

abbrev pub order_word : ℕ
order_word = 1

abbrev pub withdrawal_word : ℕ
withdrawal_word = 2

abbrev pub unknown_error : ℕ
unknown_error = 3

-- The statuses of Xendit that the controller tells apart
pub data InvoiceStatus : Type 0 where
  paid settled expired failed completed : InvoiceStatus
  other_status : ℕ → InvoiceStatus

pub data MidtransStatus : Type 0 where
  capture settlement deny cancel expire : MidtransStatus
  other_transaction : ℕ → MidtransStatus

pub data FraudStatus : Type 0 where
  accept deny : FraudStatus
  other_fraud : ℕ → FraudStatus

abbrev pub is_settled : InvoiceStatus → Bool
is_settled InvoiceStatus.paid = true
is_settled InvoiceStatus.settled = true
is_settled _ = false

abbrev pub is_lost : InvoiceStatus → Bool
is_lost InvoiceStatus.expired = true
is_lost InvoiceStatus.failed = true
is_lost _ = false

abbrev pub is_completed : InvoiceStatus → Bool
is_completed InvoiceStatus.completed = true
is_completed _ = false

abbrev pub is_failed : InvoiceStatus → Bool
is_failed InvoiceStatus.failed = true
is_failed _ = false

-- `parts[0]`, `parts[1]`
abbrev pub first_part : List ℕ → Option ℕ
first_part [] = none
first_part (p ∷ ps) = some p

abbrev pub second_part : List ℕ → Option ℕ
second_part [] = none
second_part (p ∷ ps) = first_part ps

abbrev pub is_denied : Option FraudStatus → Bool
is_denied (some FraudStatus.deny) = true
is_denied _ = false

abbrev pub is_trusted : Option FraudStatus → Bool
is_trusted none = true
is_trusted (some FraudStatus.accept) = true
is_trusted (some _) = false

abbrev pub is_captured : MidtransStatus → Bool
is_captured MidtransStatus.capture = true
is_captured MidtransStatus.settlement = true
is_captured _ = false

abbrev pub is_refused : MidtransStatus → Bool
is_refused MidtransStatus.deny = true
is_refused MidtransStatus.cancel = true
is_refused MidtransStatus.expire = true
is_refused _ = false

-- Both providers name the purpose of a payment by the first part.
abbrev pub is_word : Option ℕ → ℕ → Bool
is_word none w = false
is_word (some p) w = p == w

-- `paid_amount || amount`
abbrev pub amount_paid : Option ℤ → ℤ → ℤ
amount_paid none amount = amount
amount_paid (some p) amount = if eqb_ℤ p 0ℤ then amount else p
