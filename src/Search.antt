-- ===== src/Search.antt =====
-- The search service, search-services/search.
pub mod Model
pub mod Index
pub mod Rank
pub mod Service
pub mod Storage
pub mod Server
pub mod WordsClient
pub mod Refresh
pub mod Unordered
