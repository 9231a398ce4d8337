-- ===== src/Domain.antt =====
-- internal/domain/entities: the rows that the other components work on.
pub mod Endpoint
pub mod Task
pub mod Attempt
pub mod Signing
pub mod Errors
pub mod Ids
