-- ===== src/Resources/Collect.antt =====
-- `collect_resources` of tools/pod_resources.py: the memory, the assignment, the CPUs and the
-- recommendation together. `locate` is what `locate_cgroup` returns for a controller.
pub mod Budget
use runpod_sageattention.Base.{
  ℕ, String, Bool, true, false, Option, none, some, List, [], ◌∷◌, ◌++◌, is_nil, if◌then◌else◌,
}
use runpod_sageattention.Base.Text.{codes}
use runpod_sageattention.Job.Failure.{Result, map_result}
use runpod_sageattention.Resources.Files.{Files}
use runpod_sageattention.Resources.Limit.{CgroupLocation}
use runpod_sageattention.Resources.Snapshot.{MemorySnapshot}
use runpod_sageattention.Resources.Memory.{Warnings, collect_memory}
use runpod_sageattention.Resources.Receipt.{ReceiptFile}
use runpod_sageattention.Resources.Assigned.{apply_assigned_memory_capacity}
use runpod_sageattention.Resources.Cpu.{CpuSnapshot, collect_cpu}
use runpod_sageattention.Resources.Recommend.{BuildEnv, BuildRecommendation, recommend_build_jobs}

-- What the program reads: the texts below /proc, the cgroup files, the receipt, the environment
-- and the operating system's counts.
pub record Machine : Type 0 where
  pub mountinfo_text : Option String
  pub cgroup_text : Option String
  pub meminfo_text : Option String
  pub files : Files
  pub locate : String → Option CgroupLocation
  pub receipt : ReceiptFile
  pub assigned_bytes : Option String
  pub cpu_count : Option String
  pub build : BuildEnv
  pub host_cpu_count : ℕ
  pub affinity_count : Option ℕ

pub record ResourceSnapshot : Type 0 where
  pub location : Option CgroupLocation
  pub memory : MemorySnapshot
  pub cpu : CpuSnapshot
  pub build : BuildRecommendation
  pub warnings : Warnings

abbrev pub missing : Option String → String → Warnings
missing none name = name ∷ []
missing (some s) name = if is_nil (codes s) then name ∷ [] else []

abbrev forced_note : Bool → Warnings
forced_note forced =
    if forced
    then "pod-scoped memory usage is unavailable; compiler parallelism is forced to one job" ∷ []
    else []

abbrev or_location : Option CgroupLocation → Option CgroupLocation → Option CgroupLocation
or_location none other = other
or_location (some loc) other = some loc

-- The snapshot once the assignment was applied to the memory.
unfoldable pub with_memory :
    Machine → Option ℕ → Option ℕ → Warnings → MemorySnapshot × Warnings → ResourceSnapshot
unfolding collect_cpu recommend_build_jobs
with_memory m per_job_given reserve_given before (memory, notes) =
    let cpu =
      collect_cpu m.files (m.locate "cpuset") (m.locate "cpu") m.host_cpu_count m.affinity_count
        m.cpu_count in
    let build =
      recommend_build_jobs memory cpu.effective_count m.build per_job_given reserve_given in
    record {
      location = or_location (m.locate "memory") (m.locate "cpu");
      memory = memory;
      cpu = cpu;
      build = build;
      warnings = before ++ notes ++ forced_note build.forced_single_job;
    }

-- `collect_resources`
unfoldable pub collect_resources : Machine → Option ℕ → Option ℕ → Result ResourceSnapshot
unfolding collect_memory apply_assigned_memory_capacity with_memory
collect_resources m per_job_given reserve_given =
    let found = collect_memory m.files m.meminfo_text (m.locate "memory") in
    let before =
      missing m.mountinfo_text "cannot read /proc/self/mountinfo"
      ++ missing m.cgroup_text "cannot read /proc/self/cgroup"
      ++ found.1 in
    map_result (with_memory m per_job_given reserve_given before) (
      apply_assigned_memory_capacity m.files m.receipt m.assigned_bytes found.0 (m.locate "memory"))
