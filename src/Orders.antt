-- ===== src/Orders.antt =====
-- The order service (kahade-backend/src/core/order), in parts.
pub mod Rows
pub mod Invites
pub mod Payments
pub mod Comments
pub mod Writes
pub mod Paid
pub mod Life
pub mod Keys
pub mod Sound
pub mod Backing
pub mod Steps
pub mod Settling
pub mod Runs
pub mod Delivered
pub mod Contested
pub mod Lookup
