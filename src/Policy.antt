-- ===== src/Policy.antt =====
-- crates/nix-seal-policy/src/lib.rs: merging, validation and the projections of a plan.
pub mod Error
pub mod Chars
pub mod Merge
pub mod Kahn
pub mod Claims
pub mod Groups
pub mod Selectors
pub mod Lifecycle
pub mod Secrets
pub mod Templates
pub mod Approval
pub mod Generators
pub mod Validate
pub mod Recipients
pub mod Target
