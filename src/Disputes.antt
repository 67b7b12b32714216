-- ===== src/Disputes.antt =====
-- The dispute service (kahade-backend/src/core/dispute), in parts.
pub mod Rows
pub mod Opening
pub mod Deciding
pub mod Decisions
pub mod Appeals
