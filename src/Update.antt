-- ===== src/Update.antt =====
-- The update service, search-services/update.
pub mod Model
pub mod Service
pub mod Run
pub mod Storage
pub mod Contents
pub mod Planned
pub mod Whole
pub mod Keys
pub mod Schedules
pub mod Kept
pub mod Calls
pub mod Publisher
pub mod Server
pub mod WordsClient
pub mod Xkcd
pub mod Main
