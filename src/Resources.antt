-- ===== src/Resources.antt =====
-- tools/pod_resources.py: the memory and CPUs that a container can really use, and how many
-- compiler jobs fit.
pub mod Files
pub mod Limit
pub mod Snapshot
pub mod Memory
pub mod Receipt
pub mod Assigned
pub mod Cpu
pub mod Group
pub mod Recommend
pub mod Collect
pub mod Main
mod Examples
