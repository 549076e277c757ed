-- ===== src/Api.antt =====
-- internal/api: the server, its handlers and its routes.
pub mod Auth
pub mod Server
pub mod Rejection
pub mod Draws
pub mod Budgets
pub mod Keys
pub mod Tiers
pub mod Consumers
pub mod Router
pub mod Revocation
