-- ===== src/Wallet.antt =====
-- The wallet service (kahade-backend/src/core/wallet/wallet.service.ts), in parts.
pub mod Rows
pub mod Retry
pub mod Moves
pub mod Outcomes
pub mod Bounds
pub mod Rounds
pub mod Interference
pub mod Sums
pub mod Transfers
pub mod Alone
pub mod Balances
