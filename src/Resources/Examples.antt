-- ===== src/Resources/Examples.antt =====
-- A machine with 64 GB, a cgroup without limits, and a verified assignment of 32 GiB.
mod Commands
use runpod_sageattention.Base.{
  List, ◌⊎◌, ◌*◌, ◌≤◌, ◌+◌, ◌≡◌, refl, String, true, false, none, some, [], ◌∷◌, arith,
  if◌then◌else◌,
}
use runpod_sageattention.Base.Text.{codes}
use runpod_sageattention.Job.Failure.{ok}
use runpod_sageattention.Resources.Files.{
  FilePath, Files, eq_path, walk_ancestors, read_limit, parse_meminfo, read_integer,
  parse_key_values,
}
use runpod_sageattention.Resources.Limit.{CgroupLocation, find_effective_limit}
use runpod_sageattention.Resources.Limit.Tightest.{find_effective_limit-IsEffective, IsEffective}
use runpod_sageattention.Resources.Snapshot.{MemorySnapshot}
use runpod_sageattention.Resources.Memory.{collect_memory}
use runpod_sageattention.Resources.Receipt.{
  ReceiptFile, IsBelieved, canonical, read_verified_memory_receipt, assigned_memory_capacity,
  assigned_memory_capacity-IsBelieved,
}
use runpod_sageattention.Resources.Collect.Budget.{
  Budget, collect_resources-Budget, assigned-Budget,
}
use runpod_sageattention.Resources.Memory.Coherent.{IsCoherent, collect_memory-IsCoherent}
use runpod_sageattention.Resources.Assigned.{apply_assigned_memory_capacity}
use runpod_sageattention.Resources.Assigned.Bound.{Outcome, apply_assigned_memory_capacity-Outcome}
use runpod_sageattention.Resources.Cpu.{collect_cpu}
use runpod_sageattention.Resources.Cpu.Effective
use runpod_sageattention.Resources.Cpu.Effective.{collect_cpu-IsEffective}
use runpod_sageattention.Resources.Recommend.{recommend_build_jobs}
use runpod_sageattention.Resources.Recommend.Fits.{Fits, recommend_build_jobs-Fits}
use runpod_sageattention.Base.Int.{pos}
use runpod_sageattention.Base.Print.{show_ℕ}
use runpod_sageattention.Job.Assignment.{VerifiedBuildAssignment}
use runpod_sageattention.Job.Commands.{build_exports}
use runpod_sageattention.Resources.Receipt.{check_parent, check_receipt}
use runpod_sageattention.Resources.Main.{Options, print_jobs, main}
use runpod_sageattention.Resources.Main.Report.{Prints, Starts, main-Prints_or_Starts}
use runpod_sageattention.Resources.Collect.{Machine, ResourceSnapshot, collect_resources}

abbrev cgroup_dir : FilePath
cgroup_dir = "pod" ∷ "cgroup" ∷ "fs" ∷ "sys" ∷ []

abbrev example_files : Files
example_files path =
    if eq_path path ("memory.current" ∷ cgroup_dir)
    then some "2147483648\n"
    else if eq_path path ("memory.stat" ∷ cgroup_dir)
    then some "anon 7\ninactive_file 1073741824\n"
    else if eq_path path ("memory.max" ∷ cgroup_dir)
    then some "max\n"
    else if eq_path path ("cpu.max" ∷ cgroup_dir)
    then some "350000 100000\n"
    else none

abbrev example_location : CgroupLocation
example_location = record {
  version = 2;
  membership_path = "/pod";
  mount_root = "/";
  mount_point = "/sys/fs/cgroup";
  current_dir = cgroup_dir;
  mount_dir = "cgroup" ∷ "fs" ∷ "sys" ∷ [];
}

abbrev pub example_receipt : ReceiptFile
example_receipt = record {
  live = true;
  parent = some (record {
    is_directory = true;
    is_regular = false;
    is_symlink = false;
    links = 2;
    mode = 0o755;
    uid = 0;
    gid = 0;
  });
  opened = some (record {
    is_directory = false;
    is_regular = true;
    is_symlink = false;
    links = 1;
    mode = 0o444;
    uid = 0;
    gid = 0;
  });
  content = codes "34359738368\n";
}

abbrev pub example_machine : Machine
example_machine = record {
  mountinfo_text = some "1";
  cgroup_text = some "0::/pod";
  meminfo_text = some "MemTotal: 67108864 kB\nMemAvailable: 60000000 kB\n";
  files = example_files;
  locate = λ controller. some example_location;
  receipt = example_receipt;
  assigned_bytes = some "34359738368";
  cpu_count = some "8";
  build = record {
    memory_per_job_mib = none;
    reserve_mib = none;
    build_max_jobs = none;
    max_jobs = some "6";
  };
  host_cpu_count = 64;
  affinity_count = none;
}

abbrev example_memory : MemorySnapshot
example_memory = record {
  limited = false;
  host_total_bytes = 68719476736;
  limit_bytes = 68719476736;
  current_bytes = 2147483648;
  working_set_bytes = 1073741824;
  inactive_file_bytes = 1073741824;
  free_bytes = 32212254720;
  available_bytes = 33285996544;
  high_bytes = none;
  limit_source = "host";
  swap_limit_bytes = 0;
  swap_current_bytes = 0;
  capacity_bytes = 34359738368;
  capacity_source = "runpod-api-assignment";
  capacity_is_hard_limit = false;
  assigned_capacity_bytes = some 34359738368;
  usage_source = "cgroup-v2:/sys/fs/cgroup/pod";
  usage_current_bytes = some 2147483648;
  usage_trustworthy = true;
  usage_peak_eligible = true;
  usage_scope = "pod-cgroup";
  peak_evidence_mode = "cgroup";
}

abbrev example_note : String
example_note =
    "memory capacity comes from the verified Runpod API assignment, not a kernel-enforced cgroup hard limit"

-- The quota of 3.5 CPUs allows three jobs.
abbrev pub example_snapshot : ResourceSnapshot
example_snapshot = record {
  location = some example_location;
  memory = example_memory;
  cpu = record {
    host_count = 64;
    affinity_count = none;
    cpuset_count = none;
    quota_job_count = some 3;
    runpod_count = some 8;
    effective_count = 3;
    limiting_sources = "quota" ∷ [];
  };
  build = record {
    suggested_jobs = 3;
    jobs_by_cpu = 3;
    jobs_by_memory = 3;
    memory_per_job_bytes = 8589934592;
    reserve_bytes = 5153960756;
    usable_memory_bytes = 28132035788;
    max_jobs_cap = 6;
    forced_single_job = false;
  };
  warnings = example_note ∷ [];
}

example_collects : collect_resources example_machine none none ≡ ok example_snapshot
unfolding collect_resources canonical find_effective_limit walk_ancestors read_limit parse_meminfo
    read_verified_memory_receipt read_integer parse_key_values
example_collects = refl

assigned-Budget_example : 3 * 8589934592 + 5153960756 ≤ 34359738368
assigned-Budget_example =
    assigned-Budget example_machine none none example_snapshot 34359738368 example_collects refl
      (omega arith)

collect_resources-Budget_example : Budget example_machine example_snapshot
collect_resources-Budget_example =
    collect_resources-Budget example_machine none none example_snapshot example_collects

abbrev example_host : MemorySnapshot
example_host = (collect_memory example_files example_machine.meminfo_text (some example_location)).0

example_applies :
    apply_assigned_memory_capacity example_files example_receipt
      (some "34359738368")
      example_host
      (some example_location)
    ≡ ok (example_memory, example_note ∷ [])
unfolding apply_assigned_memory_capacity collect_memory canonical find_effective_limit
    walk_ancestors read_limit parse_meminfo read_verified_memory_receipt read_integer
    parse_key_values
example_applies = refl

apply_assigned_memory_capacity-Outcome_example :
    Outcome example_receipt (some "34359738368") example_host example_memory
apply_assigned_memory_capacity-Outcome_example =
    apply_assigned_memory_capacity-Outcome example_files example_receipt (some "34359738368")
      example_host (some example_location) example_memory (example_note ∷ [])
      (collect_memory-IsCoherent example_files example_machine.meminfo_text (some example_location))
      example_applies

example_assigned :
    assigned_memory_capacity example_receipt (some "34359738368") 68719476736
    ≡ ok (some 34359738368)
unfolding assigned_memory_capacity canonical read_verified_memory_receipt
example_assigned = refl

assigned_memory_capacity-IsBelieved_example : IsBelieved example_receipt 68719476736 34359738368
assigned_memory_capacity-IsBelieved_example =
    assigned_memory_capacity-IsBelieved example_receipt (some "34359738368") 68719476736 34359738368
      example_assigned

-- Two directories with the same limit, and a tighter one than the host has.
abbrev limit_files : Files
limit_files path =
    if eq_path path ("memory.max" ∷ cgroup_dir)
    then some "4096\n"
    else if eq_path path ("memory.max" ∷ "cgroup" ∷ "fs" ∷ "sys" ∷ [])
    then some "4096"
    else none

find_effective_limit-IsEffective_example :
    IsEffective limit_files "memory.max"
      (cgroup_dir ∷ ("cgroup" ∷ "fs" ∷ "sys" ∷ []) ∷ [])
      8192
      (4096, some ("cgroup" ∷ "fs" ∷ "sys" ∷ []))
unfolding find_effective_limit walk_ancestors read_limit
find_effective_limit-IsEffective_example =
    find_effective_limit-IsEffective limit_files example_location "memory.max" 8192

collect_memory-IsCoherent_example : IsCoherent example_host
collect_memory-IsCoherent_example =
    collect_memory-IsCoherent example_files
      (some "MemTotal: 67108864 kB\nMemAvailable: 60000000 kB\n") (some example_location)

recommend_build_jobs-Fits_example : Fits example_memory 3 example_snapshot.build
unfolding recommend_build_jobs
recommend_build_jobs-Fits_example =
    recommend_build_jobs-Fits example_memory 3 example_machine.build none none

collect_cpu-IsEffective_example : Effective.IsEffective example_snapshot.cpu
unfolding collect_cpu walk_ancestors
collect_cpu-IsEffective_example =
    collect_cpu-IsEffective example_files (some example_location) (some example_location) 64 none
      (some "8")
