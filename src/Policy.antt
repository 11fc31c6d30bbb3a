-- ===== src/Policy.antt =====
-- internal/policy/policy.go: validation, the order of evaluation, and the decision itself.
pub mod Match
pub mod Validate
pub mod Valid
pub mod Evaluate
pub mod Spec
pub mod Order
pub mod Safety
pub mod Load
