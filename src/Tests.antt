-- ===== src/Tests.antt =====
-- The theorems at concrete inputs.
mod Search
mod Update
mod Favorites
mod Auth
mod Gateway
mod Words
mod Server
mod Refresh
mod Pipeline
mod Site
mod Admin
mod Schedules
mod Bot
mod Life
