-- ===== src/Tests.antt =====
-- Concrete inputs: the theorems applied to them, and runs of the definitions.
mod Toy
mod Core
mod Device
mod Verdicts
mod Witness
mod Live
mod Jobs
mod Bundle
mod BundleVerifier
mod Presentation
mod Publish
mod Demo
mod Processes
mod Output
mod Staged
mod Report
mod Dashboard
mod Manifest
mod Scripts
