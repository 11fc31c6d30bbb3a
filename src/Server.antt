-- ===== src/Server.antt =====
-- internal/server/server.go: the handlers of the API.
pub mod Limiter
pub mod Metrics
pub mod Decide
pub mod Concurrent
pub mod Steps
pub mod Interleaving
pub mod Race
pub mod Demo
pub mod Sandbox
pub mod Statuses
pub mod Idempotency
pub mod Audit
pub mod Cached
pub mod Handlers
pub mod Anonymized
pub mod Replays
pub mod Middleware
pub mod Guard
pub mod Readings
pub mod Answers
