-- ===== src/Dispatch.antt =====
-- internal/application/dispatch: the worker's delivery path.
pub mod Breaker
pub mod Lease
pub mod Lane
pub mod Lanes
pub mod Ports
pub mod Writer
pub mod Engine
