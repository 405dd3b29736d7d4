-- ===== src/Policy/Generators.antt =====
-- crates/nix-seal-policy/src/lib.rs: generators. `Execution` has the limits of one generator,
-- `Outputs` what it declares against the others, `Order` the graph of dependencies.
pub mod Execution
pub mod Outputs
pub mod Order
