-- ===== src/Transactions.antt =====
-- Transactions, another service on the orders (kahade-backend/src/core/transaction), in parts.
pub mod Rows
pub mod Opening
pub mod Paying
pub mod Closing
pub mod Paid
pub mod Received
pub mod Marked
pub mod Again
