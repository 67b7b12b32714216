-- ===== src/Store/Enums.antt =====
-- The enums in the rows of the money services (kahade-backend/prisma/schema/00_base.prisma), what a
-- timeline of a dispute records, and the reasons for which a withdrawal is flagged.
pub data Currency : Type 0 where
  idr usd : Currency

pub data LedgerAccountType : Type 0 where
  asset liability equity revenue expense : LedgerAccountType

pub data JournalType : Type 0 where
  transaction adjustment deposit withdrawal escrow_lock escrow_release : JournalType
  transfer fee refund : JournalType

pub data EscrowHoldStatus : Type 0 where
  active held released refunded disputed adjusted : EscrowHoldStatus

pub data OrderStatus : Type 0 where
  waiting_counterparty pending_accept accepted paid : OrderStatus
  completed cancelled disputed refunded : OrderStatus

pub data InitiatorRole : Type 0 where
  buyer seller : InitiatorRole

pub data FeePayer : Type 0 where
  by_buyer by_seller by_split by_halves : FeePayer

pub data OrderCategory : Type 0 where
  electronics services digital_goods physical_goods other : OrderCategory

pub data DisputeStatus : Type 0 where
  opened responded escalated under_review under_arbitration : DisputeStatus
  awaiting_response decided appealed resolved closed : DisputeStatus

pub data DisputeDecision : Type 0 where
  undecided decision_pending buyer_wins seller_wins split decision_cancelled : DisputeDecision
  release_all_to_seller refund_all_to_buyer split_settlement cancel_void : DisputeDecision

-- What a timeline of a dispute records
pub data TimelineAction : Type 0 where
  was_opened was_responded was_escalated arbitrator_assigned : TimelineAction
  was_decided was_appealed message_sent : TimelineAction

pub data WithdrawalStatus : Type 0 where
  pending processing approved completed failed rejected : WithdrawalStatus

-- The reasons that `calculateVelocityScore` joins into `flagReason`.
pub data FlagReason : Type 0 where
  high_hourly_count high_hourly_amount high_daily_count high_weekly_count : FlagReason

pub data KycStatus : Type 0 where
  unsubmitted pending verified rejected : KycStatus
