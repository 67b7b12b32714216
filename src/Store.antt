-- ===== src/Store.antt =====
-- The database of kahade-backend as far as the money services use it, and calls on it.
mod Enums
mod Offers
mod Payments
mod Reviews
mod Rows
mod Monad
pub mod Rules
pub mod Returns
pub mod Endings
pub use Enums.*
pub use Offers.*
pub use Payments.*
pub use Reviews.*
pub use Rows.*
pub use Monad.*
