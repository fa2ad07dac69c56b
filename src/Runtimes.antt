-- ===== src/Runtimes.antt =====
-- internal/runtimes/registry.go: the registry of agent runtimes. A probe, a catalog adapter and a
-- worker factory are numbers; what they answer is an argument of the calls that run them.
pub mod Id
pub mod Capability
pub mod Registry
pub mod Startup
mod Tests
