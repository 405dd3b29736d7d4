-- ===== src/Keys.antt =====
-- The keys and recipients that a plan names: `normalize_recipient` of
-- crates/nix-seal-crypto/src/lib.rs and the public approval keys of
-- crates/nix-seal-manifest/src/lib.rs.
pub mod Recipient
pub mod Approval
