-- ===== src/Verifier.antt =====
-- verifier/: the evidence models, the verdict engine, the bundle verifier and the orchestrator.
pub mod Models
pub mod Verdicts
pub mod Orchestrator
pub mod Paths
pub mod Bundle
pub mod BundleVerifier
pub mod Publish
pub mod Processes
pub mod Report
pub mod Manifest
