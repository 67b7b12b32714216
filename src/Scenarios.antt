-- ===== src/Scenarios.antt =====
-- A small marketplace: a buyer and a seller with their wallets, an order of five hundred that is paid
-- and held in escrow, and a user who may withdraw. The children run the services on it.
use rekberkan.Base.{ℕ, Bool, true, false, none, some, List, [], ◌∷◌}
use rekberkan.Base.Int.{ℤ, pos}
use rekberkan.Store.{
  Store, Wallet, idr, EscrowHold, EscrowHoldStatus, Order, OrderStatus, InitiatorRole, FeePayer,
  OrderCategory, BankAccount, User, KycStatus,
}
mod Money
mod Deals
mod Payouts
mod Trades
mod Logins
mod Claims
mod Bargains
mod Notices
mod Receipts

abbrev pub buyer_wallet : Wallet
buyer_wallet = record {
  id = 11;
  user_id = 1;
  currency = idr;
  balance_minor = pos 1000;
  locked_minor = pos 500;
  last_reconciled_at = none;
  version = 0;
}

abbrev pub seller_wallet : Wallet
seller_wallet = record {
  id = 12;
  user_id = 2;
  currency = idr;
  balance_minor = pos 0;
  locked_minor = pos 0;
  last_reconciled_at = none;
  version = 0;
}

abbrev pub held : EscrowHold
held = record {
  id = 5;
  order_id = 7;
  buyer_wallet_id = 11;
  seller_wallet_id = some 12;
  amount_minor = pos 500;
  status = EscrowHoldStatus.active;
  resolved_at = none;
  timeout_at = some 50;
  is_archived = false;
  archived_at = none;
}

abbrev pub paid_order : Order
paid_order = record {
  id = 7;
  initiator_id = 1;
  counterparty_id = some 2;
  initiator_role = InitiatorRole.buyer;
  title = 1;
  description = 1;
  category = OrderCategory.other;
  amount_minor = pos 500;
  fee_payer = FeePayer.by_buyer;
  platform_fee_minor = pos 20;
  holding_period_days = 3;
  custom_terms = none;
  status = OrderStatus.paid;
  invite_token = 70;
  invite_expires_at = 10;
  accepted_at = none;
  paid_at = some 2;
  auto_release_at = some 50;
  completed_at = none;
  cancelled_at = none;
  deleted_at = none;
  created_at = 1;
}

abbrev pub market : Store
market = record {
  wallets = buyer_wallet ∷ seller_wallet ∷ [];
  accounts = [];
  journals = [];
  escrows = held ∷ [];
  orders = paid_order ∷ [];
  comments = [];
  disputes = [];
  timeline = [];
  evidences = [];
  withdrawals = [];
  approvals = [];
  bank_accounts =
      record {
        id = 31;
        user_id = 1;
        bank_name = 8;
        account_number_last4 = 1234;
        is_active = true;
        deleted_at = none;
      }
      ∷ [];
  users =
      record { id = 1; email = 11; kyc_status = some KycStatus.verified }
      ∷ record { id = 2; email = 12; kyc_status = none }
      ∷ [];
  payments = [];
  deposits = [];
  promos = [];
  assignments = [];
  vouchers = [];
  usages = [];
  ratings = [];
  delivery_proofs = [];
  next_id = 100;
}
