-- ===== src/Runtime.antt =====
-- crates/nix-seal-runtime/src/lib.rs: what a host does with verified artifacts.
pub mod Error
pub mod Names
pub mod Spec
pub mod Template
pub mod Streams
pub mod Services
pub mod Generations
pub mod World
pub mod Switch
