-- ===== src/Storage.antt =====
-- internal/storage: the database that the repositories share, and how a call reaches it.
pub mod World
pub mod Keeps
pub mod UsersKept
pub mod Spends
pub mod Reads
pub mod Users
pub mod Jobs
pub mod Sessions
pub mod Images
pub mod Questions
pub mod Like
