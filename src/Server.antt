-- ===== src/Server.antt =====
-- internal/server: the chat queue's drainer and the running status of the sessions.
pub mod Drainer
pub mod Status
mod Tests
