-- ===== src/Auth.antt =====
-- The auth service, search-services/auth.
pub mod Model
pub mod Email
pub mod Service
pub mod Storage
pub mod Telegram
pub mod Server
pub mod Accounts
pub mod Login
pub mod Bot
pub mod Main
