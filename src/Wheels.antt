-- ===== src/Wheels.antt =====
-- The scripts on wheels: scripts/merge-manifests.py, scripts/select-wheel.py and the resource
-- evidence of scripts/validate-wheel.py.
pub mod Asset
pub mod Merge
pub mod Select
pub mod Locate
pub mod Store
pub mod Install
pub mod Evidence
pub mod Examples
