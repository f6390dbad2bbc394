-- ===== src/Api.antt =====
-- The REST gateway, search-services/api.
pub mod Model
pub mod Clients
pub mod Http
pub mod Handlers
pub mod Middleware
pub mod Mux
pub mod Routes
pub mod Server
pub mod Life
