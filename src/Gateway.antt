-- ===== src/Gateway.antt =====
-- The gateway joined with the services behind it, over a network that delivers.
pub mod Search
pub mod Favorites
pub mod Tokens
pub mod Update
pub mod Access
pub mod Admin
pub mod Session
pub mod Bot
pub mod Paths
pub mod Pages
pub mod Served
