-- ===== src/Updater.antt =====
-- internal/updater/updater.go: whether a newer release is there.
pub mod Versions
pub mod Checker
mod Tests
