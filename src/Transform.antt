-- ===== src/Transform.antt =====
-- internal/transform/transform.go: findings are cut out of a text and replaced by what the plan says.
pub mod Replacement
pub mod Apply
pub mod Render
pub mod Keeps
pub mod Mask
