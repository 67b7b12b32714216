-- ===== src/Ledger.antt =====
-- The ledger service (kahade-backend/src/core/ledger), in parts.
pub mod Journal
pub mod Records
pub mod Accounts
pub mod Balanced
pub mod Postings
pub mod Distribution
pub mod Checks
