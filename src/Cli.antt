-- ===== src/Cli.antt =====
-- cmd/datafog-shim/main.go: the shim's command line and the scripts that it installs.
pub mod Quote
pub mod Words
pub mod Config
pub mod Precedence
pub mod Script
pub mod Metadata
pub mod Hooks
pub mod Ownership
pub mod Installed
pub mod Commands
pub mod Listing
pub mod Traces
pub mod Gated
