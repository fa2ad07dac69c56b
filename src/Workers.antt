-- ===== src/Workers.antt =====
-- internal/workers: the manager of chat workers and the bounded writer.
pub mod Writer
pub mod Manager
pub mod Lifecycle
pub mod Sends
pub mod Reaper
pub mod Calls
pub mod Requests
mod Tests
