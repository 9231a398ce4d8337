-- ===== src/Config.antt =====
-- internal/application/config: the in-memory configuration.
pub mod Snapshot
pub mod Manager
