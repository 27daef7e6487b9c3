-- ===== src/Core.antt =====
-- fixrepro_core/: packages, signatures, the two gateway policies, and the gateway.
pub mod Errors
pub mod Json
pub mod Primitives
pub mod Models
pub mod Canonical
pub mod Package
pub mod Evaluation
pub mod Config
pub mod DeviceClient
pub mod Gateway
pub mod Artifacts
