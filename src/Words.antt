-- ===== src/Words.antt =====
-- The words service, search-services/words.
pub mod Service
pub mod Laws
pub mod Runs
pub mod Server
