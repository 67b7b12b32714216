-- ===== src/Payments.antt =====
-- Payments by a provider: top-ups of wallets (kahade-backend/src/core/wallet/wallet.service.ts) and the
-- notifications of the providers (kahade-backend/src/core/payment/webhook.controller.ts), in parts.
pub mod TopUp
pub mod Keys
pub mod Notices
pub mod Texts
pub mod Processing
pub mod Webhooks
pub mod Once
pub mod Deliveries
pub mod Credits
pub mod Overrides
pub mod Disbursed
