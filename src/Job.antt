-- ===== src/Job.antt =====
-- tools/runpod_job.py: one bounded job on an ephemeral Pod.
pub mod Failure
pub mod Request
pub mod Spec
pub mod Assignment
pub mod Effects
pub mod Deadline
pub mod Pods
pub mod Placement
pub mod Commands
pub mod Run
pub mod Leaks
mod Examples
