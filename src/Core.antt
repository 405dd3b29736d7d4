-- ===== src/Core.antt =====
-- crates/nix-seal-core/src/lib.rs: identifiers, the plan and its parts, and the safe spelling of a
-- compatibility symlink.
pub mod Id
pub mod Plan
pub mod Path
pub mod Symlink
