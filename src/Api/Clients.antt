-- ===== src/Api/Clients.antt =====
-- search-services/api/adapters: the gRPC clients of the gateway.
pub mod Search
pub mod Update
pub mod Favorites
pub mod Words
pub mod Auth
