-- ===== src/Store/Rows.antt =====
-- The rows of the tables that the money services read and write (kahade-backend/prisma/schema:
-- 00_base, 20_wallet_ledger, 40_bank_withdrawal, 50_order_escrow, 60_dispute).
-- Identifiers and texts that are only compared are numbers, bigints are ℤ, a date is its
-- milliseconds, and a nullable column is an Option.
use rekberkan.Base.{ℕ, Bool, Option, List}
use rekberkan.Base.Int.{ℤ}
use rekberkan.Store.Offers.{Promo, PromoAssignment, Voucher, VoucherUsage}
use rekberkan.Store.Payments.{Payment, Deposit}
use rekberkan.Store.Reviews.{Rating, DeliveryProof}
use rekberkan.Store.Enums.{
  Currency, LedgerAccountType, JournalType, EscrowHoldStatus, OrderStatus, InitiatorRole, FeePayer,
  OrderCategory, DisputeStatus, DisputeDecision, TimelineAction, WithdrawalStatus, FlagReason,
  KycStatus,
}

pub record Wallet : Type 0 where
  pub id : ℕ
  pub user_id : ℕ
  pub currency : Currency
  pub balance_minor : ℤ
  pub locked_minor : ℤ
  pub last_reconciled_at : Option ℕ
  pub version : ℕ

pub record LedgerAccount : Type 0 where
  pub id : ℕ
  pub wallet_id : Option ℕ
  pub platform_key : Option ℕ
  pub type : LedgerAccountType
  pub currency : Currency

pub record LedgerEntry : Type 0 where
  pub id : ℕ
  pub account_id : ℕ
  pub amount_minor : ℤ
  pub running_balance_minor : Option ℤ
  pub created_at : ℕ

-- A journal holds its entries, as the queries with `include: { entries: true }` return them.
pub record LedgerJournal : Type 0 where
  pub id : ℕ
  pub type : JournalType
  pub amount_minor : ℤ
  pub idempotency_key : Option ℕ
  pub deposit_id : Option ℕ
  pub withdrawal_id : Option ℕ
  pub order_id : Option ℕ
  pub escrow_hold_id : Option ℕ
  pub dispute_id : Option ℕ
  pub referral_reward_id : Option ℕ
  pub voucher_usage_id : Option ℕ
  pub order_settlement_id : Option ℕ
  pub entries : List LedgerEntry

pub record EscrowHold : Type 0 where
  pub id : ℕ
  pub order_id : ℕ
  pub buyer_wallet_id : ℕ
  pub seller_wallet_id : Option ℕ
  pub amount_minor : ℤ
  pub status : EscrowHoldStatus
  pub resolved_at : Option ℕ
  pub timeout_at : Option ℕ
  pub is_archived : Bool
  pub archived_at : Option ℕ

pub record Order : Type 0 where
  pub id : ℕ
  pub initiator_id : ℕ
  pub counterparty_id : Option ℕ
  pub initiator_role : InitiatorRole
  pub title : ℕ
  pub description : ℕ
  pub category : OrderCategory
  pub amount_minor : ℤ
  pub fee_payer : FeePayer
  pub platform_fee_minor : ℤ
  pub holding_period_days : ℕ
  pub custom_terms : Option ℕ
  pub status : OrderStatus
  pub invite_token : ℕ
  pub invite_expires_at : ℕ
  pub accepted_at : Option ℕ
  pub paid_at : Option ℕ
  pub auto_release_at : Option ℕ
  pub completed_at : Option ℕ
  pub cancelled_at : Option ℕ
  pub deleted_at : Option ℕ
  pub created_at : ℕ

pub record OrderComment : Type 0 where
  pub id : ℕ
  pub order_id : ℕ
  pub user_id : ℕ
  pub message : ℕ
  pub deleted_at : Option ℕ
  pub deleted_by : Option ℕ

pub record Dispute : Type 0 where
  pub id : ℕ
  pub order_id : ℕ
  pub opened_by : ℕ
  pub status : DisputeStatus
  pub response_deadline : Option ℕ
  pub escalated_at : Option ℕ
  pub escalated_to : Option ℕ
  pub arbitrator_id : Option ℕ
  pub decision : DisputeDecision
  pub seller_amount_minor : Option ℤ
  pub buyer_refund_minor : Option ℤ
  pub can_appeal : Bool
  pub appeal_deadline : Option ℕ
  pub appeal_count : ℕ
  pub decided_at : Option ℕ

pub record DisputeTimeline : Type 0 where
  pub dispute_id : ℕ
  pub action : TimelineAction
  pub performed_by : ℕ
  pub details : Option ℕ

pub record DisputeEvidence : Type 0 where
  pub dispute_id : ℕ
  pub submitted_by : ℕ
  pub file_urls : List ℕ
  pub description : ℕ

pub record Withdrawal : Type 0 where
  pub id : ℕ
  pub wallet_id : ℕ
  pub user_id : ℕ
  pub bank_account_id : ℕ
  pub amount_minor : ℤ
  pub status : WithdrawalStatus
  pub idempotency_key : Option ℕ
  pub requires_multiple_approvals : Bool
  pub required_approvals : ℕ
  pub velocity_score : ℕ
  pub is_flagged_by_system : Bool
  pub flag_reason : Option (List FlagReason)
  pub cooling_period_ends_at : Option ℕ
  pub can_process_after : Option ℕ
  pub approved_by : Option ℕ
  pub approved_at : Option ℕ
  pub admin_notes : Option ℕ
  pub rejection_reason : Option ℕ
  pub requested_at : ℕ
  pub completed_at : Option ℕ
  pub provider_disbursement_id : Option ℕ

pub record WithdrawalApproval : Type 0 where
  pub withdrawal_id : ℕ
  pub approved_by : ℕ

pub record BankAccount : Type 0 where
  pub id : ℕ
  pub user_id : ℕ
  pub bank_name : ℕ
  pub account_number_last4 : ℕ
  pub is_active : Bool
  pub deleted_at : Option ℕ

pub record User : Type 0 where
  pub id : ℕ
  pub email : ℕ
  pub kyc_status : Option KycStatus

-- The tables, and the supply of identifiers: the next one that a `create` gives to a row.
pub record Store : Type 0 where
  pub wallets : List Wallet
  pub accounts : List LedgerAccount
  pub journals : List LedgerJournal
  pub escrows : List EscrowHold
  pub orders : List Order
  pub comments : List OrderComment
  pub disputes : List Dispute
  pub timeline : List DisputeTimeline
  pub evidences : List DisputeEvidence
  pub withdrawals : List Withdrawal
  pub approvals : List WithdrawalApproval
  pub bank_accounts : List BankAccount
  pub users : List User
  pub payments : List Payment
  pub deposits : List Deposit
  pub promos : List Promo
  pub assignments : List PromoAssignment
  pub vouchers : List Voucher
  pub usages : List VoucherUsage
  pub ratings : List Rating
  pub delivery_proofs : List DeliveryProof
  pub next_id : ℕ
