-- ===== src/Tests.antt =====
-- The program run on a sample plan, and the theorems applied to it.
mod Run
mod Sample
mod Expected
mod Policy
mod Manifest
mod Runtime
