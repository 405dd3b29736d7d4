-- ===== src/Manifest.antt =====
-- crates/nix-seal-manifest/src/lib.rs: signed artifact envelopes, the keys that sign them, and the
-- capability to create one ciphertext.
pub mod Types
pub mod Crates
pub mod Pae
pub mod Agent
pub mod Keys
pub mod Envelope
pub mod Delegated
