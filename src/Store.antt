-- ===== src/Store.antt =====
-- internal/adapters/outbound/persistence/postgres: the statements of the repositories, as functions
-- on the rows of their tables. A statement is one atomic step.
pub mod Queue
pub mod Leases
pub mod Messages
pub mod Applications
pub mod EventTypes
pub mod Filters
pub mod Paging
pub mod Attempts
pub mod Endpoints
pub mod Idempotency
pub mod Partitions
