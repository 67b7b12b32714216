-- ===== src/Payments/Webhooks.antt =====
-- The handlers of kahade-backend/src/core/payment/webhook.controller.ts. The keys of the cache are
-- texts made of the kind of notification and an identifier, which are numbers here; `expected` and
-- `server_key` are what is configured, and `digest` is the hash that signs a notification.
use rekberkan.Base.{
  ℕ, ◌+◌, ◌*◌, Bool, true, false, Option, none, some, List, [], if◌then◌else◌, ◌==◌, ◌&&◌, get_or,
  is_some,
}
use rekberkan.Base.Int.{ℤ}
use rekberkan.Store.{Store, Action, Result, ok, err, Error}
use rekberkan.Payments.Keys.{KeyCache}
use rekberkan.Payments.Notices.{InvoiceStatus, MidtransStatus, FraudStatus}
use rekberkan.Payments.Processing.{
  process_xendit_payment, process_xendit_disbursement, process_midtrans_payment,
}

pub record XenditInvoice : Type 0 where
  pub id : Option ℕ
  pub external_id : Option (List ℕ)
  pub status : Option InvoiceStatus
  pub amount : ℤ
  pub paid_amount : Option ℤ

pub record XenditDisbursement : Type 0 where
  pub id : Option ℕ
  pub external_id : Option (List ℕ)
  pub status : InvoiceStatus
  pub failure_code : Option ℕ

pub record MidtransNotice : Type 0 where
  pub transaction_id : Option ℕ
  pub order_id : Option (List ℕ)
  pub transaction_status : Option MidtransStatus
  pub gross_amount : ℕ
  pub status_code : Option ℕ
  pub signature_key : Option ℕ
  pub fraud_status : Option FraudStatus

-- The status code "200"
abbrev pub code_200 : ℕ
code_200 = 200

abbrev pub webhook_ttl_seconds : ℕ
webhook_ttl_seconds = 24 * 60 * 60

-- What a call answers, or what it throws
pub data Answer : Type 0 where
  processed duplicate : Answer
  thrown : Error → Answer

abbrev text_of : Option ℕ → ℕ
text_of none = 0
text_of (some id) = id + 1

abbrev pub invoice_key : Option ℕ → ℕ
invoice_key id = text_of id * 3

abbrev pub disbursement_key : Option ℕ → ℕ
disbursement_key id = text_of id * 3 + 1

abbrev pub notification_key : Option ℕ → ℕ
notification_key id = text_of id * 3 + 2

-- `secureCompare`, in which a missing text equals none
unfoldable pub secure_compare : Option ℕ → Option ℕ → Bool
secure_compare none b = false
secure_compare (some a) none = false
secure_compare (some a) (some b) = a == b

abbrev pub is_valid_invoice : XenditInvoice → Bool
is_valid_invoice p = is_some p.id && is_some p.external_id && is_some p.status

abbrev pub invoice_process : ℕ → XenditInvoice → Action (Unit {0})
invoice_process now p =
    process_xendit_payment now (get_or p.external_id [])
      (get_or p.status (InvoiceStatus.other_status 0)) p.amount p.paid_amount

module _ (cache : KeyCache) where
  open cache use {Entries, setnx, set, del}

  -- The `try` and `catch` round the processing
  unfoldable pub finish_webhook :
      ℕ → ℕ → Entries → Result (Unit {0}) × Store → Answer × Entries × Store
  finish_webhook now key c (ok r, s) = (Answer.processed, set now key webhook_ttl_seconds c, s)
  finish_webhook now key c (err e, s) = (Answer.thrown e, del key c, s)

  -- Once the key is acquired: an invalid payload is refused, and the key is kept.
  unfoldable pub acquired :
      ℕ → ℕ → Bool → Action (Unit {0}) → Bool × Entries → Store → Answer × Entries × Store
  unfolding finish_webhook
  acquired now key valid process (false, c) s = (Answer.duplicate, c, s)
  acquired now key valid process (true, c) s =
      if valid
      then finish_webhook now key c (process s)
      else (Answer.thrown Error.bad_request, c, s)

  unfoldable pub once :
      ℕ → ℕ → Bool → Action (Unit {0}) → Entries → Store → Answer × Entries × Store
  unfolding acquired
  once now key valid process c s =
      acquired now key valid process (setnx now key webhook_ttl_seconds c) s

  -- `handleXenditInvoice`
  unfoldable pub handle_xendit_invoice :
      Option ℕ → ℕ → Option ℕ → XenditInvoice → Entries → Store → Answer × Entries × Store
  unfolding secure_compare once
  handle_xendit_invoice expected now token p c s =
      if secure_compare token expected
      then once now (invoice_key p.id) (is_valid_invoice p) (invoice_process now p) c s
      else (Answer.thrown Error.bad_request, c, s)

  -- `handleXenditDisbursement`
  unfoldable pub handle_xendit_disbursement :
      Option ℕ → ℕ → Option ℕ → XenditDisbursement → Entries → Store → Answer × Entries × Store
  unfolding secure_compare once
  handle_xendit_disbursement expected now token p c s =
      if secure_compare token expected
      then once now (disbursement_key p.id) true
          (process_xendit_disbursement now p.external_id p.status p.failure_code) c s
      else (Answer.thrown Error.bad_request, c, s)

  module _ (digest : Option (List ℕ) → ℕ → ℕ → ℕ → ℕ) (parse_float : ℕ → ℤ) where
    -- `generateMidtransSignature`
    abbrev pub signature_of : ℕ → MidtransNotice → ℕ
    signature_of server_key p =
        digest p.order_id (get_or p.status_code code_200) p.gross_amount server_key

    abbrev pub is_valid_notice : MidtransNotice → Bool
    is_valid_notice p =
        is_some p.transaction_id && is_some p.order_id && is_some p.transaction_status

    abbrev pub notice_process : ℕ → MidtransNotice → Action (Unit {0})
    notice_process now p =
        process_midtrans_payment now (get_or p.order_id [])
          (get_or p.transaction_status (MidtransStatus.other_transaction 0))
          (parse_float p.gross_amount) p.fraud_status

    -- `handleMidtransNotification`
    unfoldable pub handle_midtrans_notification :
        Option ℕ → ℕ → MidtransNotice → Entries → Store → Answer × Entries × Store
    unfolding secure_compare once
    handle_midtrans_notification none now p c s = (Answer.thrown Error.bad_request, c, s)
    handle_midtrans_notification (some server_key) now p c s =
        if secure_compare p.signature_key (some (signature_of server_key p))
        then once now (notification_key p.transaction_id) (is_valid_notice p) (notice_process now p)
            c s
        else (Answer.thrown Error.bad_request, c, s)
