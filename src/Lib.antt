-- ===== src/Lib.antt =====
-- huxio, a webhook service: a message is stored with a fan-out task, the fan-out becomes one deliver
-- task for each endpoint that matches it, and workers claim the tasks from a Postgres table, send the
-- requests and record the attempts. Senders post messages and manage endpoints over an HTTP API; a
-- maintenance loop keeps the tables.
--
-- The parts, from the data outwards, and the files of the repository that they model:
--   Prelude      numbers, lists, texts, maps, dates and sorting, shared by the rest
--   Utils        internal/utils: str.go and slice.go
--   Domain       internal/domain/entities: endpoints and their filters (Endpoint), tasks and the partition
--                of an id (Task), attempts (Attempt); internal/domain/signing/signer.go (Signing),
--                internal/domain/apperrors (Errors) and internal/infrastructure/ids/ids.go (Ids)
--   Retry        internal/domain/retry/policy.go: Delay is `delay`, ParseRetryAfter is `parse_retry_after`
--   Store        internal/adapters/outbound/persistence/postgres: queue_repo.go (Queue), lease_repo.go
--                (Leases), message_repo.go and store.go (Messages), attempt_repo.go (Attempts),
--                endpoint_repo.go (Endpoints), idempotency_repo.go (Idempotency), maintenance_repo.go
--                (Partitions), application_repo.go (Applications), event_type_repo.go (EventTypes), and query_builder.go with internal/domain/
--                repositories/query.go (Filters and Paging); a table is a list of rows and a statement is a
--                function on it
--   Config       internal/application/config: snapshot.go, BuildSnapshot and MatchingEndpoints (Snapshot), and
--                manager.go, Load, Invalidate and Run (Manager)
--   Dispatch     internal/application/dispatch: breaker.go (Breaker), lane.go (Lane), lanes.go (Lanes),
--                lease_manager.go and partitions.go (Lease), attempt_writer.go (Writer), ports.go (Ports)
--                and engine.go (Engine, by handler: Claim, Fanout, Health, Attempt, Deliver)
--   UseCases     internal/application/usecases: app_resolver.go, ingest_usecase.go (Ingest),
--                endpoint_usecase.go (Endpoints), attempt_usecase.go (Replay), event_type_usecase.go
--                (EventTypes), application_usecase.go (Applications), operational_usecase.go
--                (Operational), message_usecase.go (Messages), portal_usecase.go (Portal) and
--                admin_usecase.go (Admin)
--   Api          internal/adapters/inbound/http/middleware/idempotency.go (Idempotency)
--   Client       internal/adapters/outbound/deliveryhttp: ssrf.go (Guard), dnscache.go and dialer.go (Dialer)
--   Maintenance  internal/application/maintenance/loop.go
--   Nodes        internal/application/nodes/registry.go
--   Fixtures     the data of the examples
-- The Api's middleware stands before the UseCases; Ingest puts a message and its fan-out task into the
-- Store, and Replay puts deliver tasks there. A worker's Lease decides which partitions its Engine claims
-- from the Store; the Engine asks the Config for the endpoints, goes through the endpoint's Lane with its
-- Breaker, sends over the Client's dialer, computes the next attempt with Retry, and hands the record to
-- the Writer, which writes it and then updates the queue. The Maintenance rescues stuck tasks and makes
-- and drops partitions, under a named lease of the Store.
--
-- State and steps. A mutex's critical section is one function from the state to the state and a result.
-- Goroutines are interleaved steps: a relation for the waiters of a lane (Dispatch.Lane.Waiters), and a
-- list of events for the breaker, the lane's calls, the writer, the configuration manager and the
-- maintenance loops of a cluster. What other goroutines do while a handler waits or sends, or between two
-- statements of a request, is an arbitrary function or list of statements. A handler of the engine is the
-- list of the calls that it makes, given the answers of its ports; `perform_all` runs such calls on the
-- queue, any of them failing, and none after a crash. A use case is a function from the tables to the
-- tables and a result, given which of its calls work. A turn of the maintenance loop, in which the lease is
-- acquired and the leader's work is done, is one step; in the code the work is several statements, and
-- could outlast the lease.
--
-- Numbers. Times and durations are nanoseconds as natural numbers. Where the source keeps a signed value
-- (an option, a Retry-After) it is a ℤ, and the one product that can wrap, the seconds of a Retry-After,
-- wraps at 64 bits. The doubling of the cooldown (Breaker) and of a delay (Retry) is not wrapped: the first
-- fits for a cap below 2 ^ 62 ns, and the bounds of the second are for steps of up to 2 ^ 51 ns. A day of the calendar is a year, a month
-- and a day. Loops are structural recursion; the loop of `Acquire` recurses on the rounds that it is
-- given, and a client's walk over the pages of a list (Store.Paging) on the pages that it asks for, of
-- which one more than the rows are enough. Fuel stands only in the decimal text of a number
-- (Domain.Signing): n + 1 for the number n, of which each digit takes one.
--
-- Not modelled: the handlers of the HTTP API and their parsing, the rate limiter of the API, the use
-- case on organizations, the lists of the use cases, the HTTP client beyond its dialer, and process
-- wiring. Logging and metrics are left out everywhere.
-- Random jitter (floats) is a function with its range, up to 2 ns, as a hypothesis; the sealer, the JSON and URL
-- parsers, the KSUID library, `time.Parse`, the cryptography, the hash of a key, the rate limiter's
-- answers, the resolver and the network are arguments.
pub mod Api
pub mod Client
pub mod Config
pub mod Dispatch
pub mod Domain
pub mod Fixtures
pub mod Maintenance
pub mod Nodes
pub mod Prelude
pub mod Retry
pub mod Store
pub mod UseCases
pub mod Utils
