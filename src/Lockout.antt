-- ===== src/Lockout.antt =====
-- The lockout of accounts after failed logins (kahade-backend/src/core/auth), in parts.
pub mod Cache
pub mod Service
pub mod Attempts
pub mod Ends
