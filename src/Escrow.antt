-- ===== src/Escrow.antt =====
-- The escrow service (kahade-backend/src/core/escrow), in parts.
pub mod Machine
pub mod Rows
pub mod Create
pub mod Settle
pub mod Dispute
pub mod Timeout
pub mod Atomic
pub mod Booked
pub mod Books
pub mod Laws
pub mod Unreachable
pub mod Frame
pub mod Effects
pub mod Settled
pub mod Release
pub mod Refund
pub mod Opened
pub mod Written
