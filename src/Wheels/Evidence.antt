-- ===== src/Wheels/Evidence.antt =====
-- `validate_resource_evidence` of scripts/validate-wheel.py, in the order of its requirements.
pub mod Snapshot
pub mod Policy
pub mod Peak
pub mod Sample
pub mod Supervised
pub mod Validate
pub mod Examples
