-- ===== src/Promos.antt =====
-- Promotions and vouchers (kahade-backend/src/core/promo/promo.service.ts), in parts.
pub mod Rows
pub mod Admin
pub mod Checks
pub mod Applying
pub mod Discounts
pub mod Applied
pub mod Again
pub mod Offers
pub mod Accepts
pub mod Meter
pub mod Runs
