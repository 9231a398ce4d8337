-- ===== src/Api.antt =====
-- internal/adapters/inbound/http: the middleware that decides whether a request is handled.
pub mod Idempotency
