-- ===== src/Favorites.antt =====
-- The favorites service, search-services/favorites.
pub mod Model
pub mod Storage
pub mod Service
pub mod Rows
pub mod History
