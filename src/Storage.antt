-- ===== src/Storage.antt =====
-- internal/storage: the SQLite storage, one child module for each manager of `Storage`.
pub mod Models
pub mod World
pub mod Instances
pub mod Locks
pub mod History
pub mod Timers
pub mod Outbox
pub mod Compensations
pub mod Groups
pub mod Channels
pub mod Delivery
pub mod Postgres
pub mod Listing
