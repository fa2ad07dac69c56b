-- ===== src/Sessions.antt =====
-- internal/sessions: session files, their incremental parse and cache, forks, project directories.
pub mod Order
pub mod Labels
pub mod Bytes
pub mod Fold
pub mod Json
pub mod Branch
pub mod Cache
pub mod Names
pub mod Incremental
mod Tests
