-- ===== src/Shim.antt =====
-- internal/shim: the gate that asks for a decision and enforces it, its log, and its HTTP client.
pub mod Gate
pub mod Actions
pub mod Calls
pub mod Enforcement
pub mod Events
pub mod Queries
pub mod Http
