-- ===== src/Withdrawal.antt =====
-- The withdrawal service (kahade-backend/src/core/withdrawal/withdrawal.service.ts), in parts.
pub mod Limits
pub mod Velocity
pub mod Requests
pub mod Deciding
pub mod Caps
pub mod Created
pub mod Periods
pub mod Decided
pub mod Reserve
pub mod Vetted
pub mod Flagged
pub mod Cancel
pub mod Direct
pub mod Race
