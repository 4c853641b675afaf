-- ===== src/Resources/Assigned.antt =====
-- `apply_assigned_memory_capacity` of tools/pod_resources.py: the assignment as a capacity bound.
-- The warnings that the source appends are returned beside the snapshot.
pub mod Bound
use runpod_sageattention.Base.{
  ℕ, ◌-◌, ◌≤◌, ◌<◌, ◌≡◌, ◌≢◌, String, Bool, true, false, not, ◌&&◌, ◌||◌, Option, none, some, [],
  ◌∷◌, ◌++◌, leb, is_some, is_none, is_nil, if◌then◌else◌,
}
use runpod_sageattention.Base.Text.{codes}
use runpod_sageattention.Job.Failure.{Result, map_result}
use runpod_sageattention.Resources.Files.{Files}
use runpod_sageattention.Resources.Limit.{CgroupLocation}
use runpod_sageattention.Resources.Snapshot.{MemorySnapshot, LeafUsage, usage_name, read_leaf_usage}
use runpod_sageattention.Resources.Memory.{Warnings, no_leaf}
use runpod_sageattention.Resources.Receipt.{ReceiptFile, assigned_memory_capacity}

abbrev within : Option ℕ → ℕ → Bool
within none assigned = false
within (some n) assigned = leb n assigned

-- What is known of the Pod's usage, judged against the assignment: `eligible` is
-- `usage_peak_eligible`.
pub record Evidence : Type 0 where
  pub leaf : LeafUsage
  pub inactive : ℕ
  pub eligible : Bool
  pub trusted : Bool
  pub fallback : Bool
  pub notes : Warnings

-- The warning on the leaf's usage; `raw` says that its file was read.
abbrev note : LeafUsage → Bool → Bool → Warnings
note leaf raw is_within =
    if not leaf.readable
    then (if raw
        then "resolved cgroup memory usage counter is malformed" ∷ []
        else if leaf.scoped
        then "cannot read pod-scoped leaf memory usage" ∷ []
        else "cannot read memory usage from the resolved cgroup root" ∷ [])
    else if not is_within
    then "resolved cgroup usage exceeds the verified Runpod assignment; it is not accepted as build or peak evidence"
      ∷ []
    else if not leaf.scoped
    then "cgroup membership and mount root are both '/'; usage may be a private Pod root but is ambiguous, so compiler parallelism is forced to one job"
      ∷ []
    else []

unfoldable pub judge : LeafUsage → Bool → ℕ → Evidence
judge leaf raw assigned =
    let is_within = leaf.readable && within leaf.current assigned in
    record {
      leaf = leaf;
      inactive = if is_within && not leaf.scoped then 0 else leaf.inactive;
      eligible = is_within;
      trusted = is_within && leaf.scoped;
      fallback = not leaf.readable && (is_none leaf.current && not raw);
      notes = note leaf raw is_within;
    }

-- Without a location there is no usage, and the RSS fallback is eligible.
unfoldable pub evidence : Files → Option CgroupLocation → ℕ → Evidence
unfolding judge read_leaf_usage usage_name
evidence files none assigned = record {
  leaf = no_leaf;
  inactive = 0;
  eligible = false;
  trusted = false;
  fallback = true;
  notes = "cannot locate a pod-scoped memory cgroup for usage evidence" ∷ [];
}
evidence files (some loc) assigned =
    judge (read_leaf_usage files loc) (is_some (files (usage_name loc.version ∷ loc.current_dir)))
      assigned

pub record Amounts : Type 0 where
  pub current : ℕ
  pub working : ℕ
  pub inactive : ℕ
  pub free : ℕ
  pub available : ℕ

abbrev unknown_amounts : ℕ → Amounts
unknown_amounts assigned = record {
  current = assigned;
  working = assigned;
  inactive = 0;
  free = 0;
  available = 0;
}

-- Unknown usage counts as the whole assignment.
unfoldable pub amounts : Bool → Option ℕ → ℕ → ℕ → Amounts
amounts false usage inactive assigned = unknown_amounts assigned
amounts true none inactive assigned = unknown_amounts assigned
amounts true (some current) inactive assigned =
    let working = current - inactive in
    record {
      current = current;
      working = working;
      inactive = inactive;
      free = assigned - current;
      available = assigned - working;
    }

abbrev peak_mode : Evidence → String
peak_mode e =
    if e.eligible
    then "cgroup"
    else if e.fallback && (is_none e.leaf.current && is_nil (codes e.leaf.source))
    then "process-group-rss"
    else "unavailable"

abbrev fallback_note : Evidence → Warnings
fallback_note e =
    if not e.eligible && (e.fallback && (is_none e.leaf.current && is_nil (codes e.leaf.source)))
    then "cgroup memory accounting is unavailable; release builds require serialized process-group RSS sampling, which excludes unrelated Pod processes and most filesystem cache"
      ∷ []
    else []

-- The snapshot whose capacity is the assignment.
unfoldable pub assigned_snapshot : MemorySnapshot → Evidence → ℕ → MemorySnapshot
unfolding amounts
assigned_snapshot memory e assigned =
    let a = amounts e.eligible e.leaf.current e.inactive assigned in
    record {
      limited = memory.limited;
      host_total_bytes = memory.host_total_bytes;
      limit_bytes = memory.limit_bytes;
      current_bytes = a.current;
      working_set_bytes = a.working;
      inactive_file_bytes = a.inactive;
      free_bytes = a.free;
      available_bytes = a.available;
      high_bytes = none;
      limit_source = memory.limit_source;
      swap_limit_bytes = memory.swap_limit_bytes;
      swap_current_bytes = memory.swap_current_bytes;
      capacity_bytes = assigned;
      capacity_source = "runpod-api-assignment";
      capacity_is_hard_limit = false;
      assigned_capacity_bytes = some assigned;
      usage_source = e.leaf.source;
      usage_current_bytes = e.leaf.current;
      usage_trustworthy = e.trusted;
      usage_peak_eligible = e.eligible;
      usage_scope =
          if e.trusted
          then "pod-cgroup"
          else if e.eligible
          then "ambiguous-cgroup-root"
          else "unavailable";
      peak_evidence_mode = peak_mode e;
    }

-- A finite cgroup limit that is not above the assignment stays.
unfoldable pub keep_limit : MemorySnapshot → ℕ → MemorySnapshot
keep_limit memory assigned = record {
  limited = memory.limited;
  host_total_bytes = memory.host_total_bytes;
  limit_bytes = memory.limit_bytes;
  current_bytes = memory.current_bytes;
  working_set_bytes = memory.working_set_bytes;
  inactive_file_bytes = memory.inactive_file_bytes;
  free_bytes = memory.free_bytes;
  available_bytes = memory.available_bytes;
  high_bytes = memory.high_bytes;
  limit_source = memory.limit_source;
  swap_limit_bytes = memory.swap_limit_bytes;
  swap_current_bytes = memory.swap_current_bytes;
  capacity_bytes = memory.capacity_bytes;
  capacity_source = memory.capacity_source;
  capacity_is_hard_limit = memory.capacity_is_hard_limit;
  assigned_capacity_bytes = some assigned;
  usage_source = memory.usage_source;
  usage_current_bytes = memory.usage_current_bytes;
  usage_trustworthy = memory.usage_trustworthy;
  usage_peak_eligible = memory.usage_peak_eligible;
  usage_scope = memory.usage_scope;
  peak_evidence_mode = if memory.usage_peak_eligible then "cgroup" else "unavailable";
}

abbrev kernel_note : String
kernel_note =
    "memory capacity comes from the verified Runpod API assignment, not a kernel-enforced cgroup hard limit"

abbrev append_notes : Evidence → Warnings
append_notes e = kernel_note ∷ e.notes ++ fallback_note e

-- The snapshot after the assignment was read.
unfoldable pub apply :
    Files → MemorySnapshot → Option CgroupLocation → Option ℕ → MemorySnapshot × Warnings
unfolding keep_limit assigned_snapshot evidence
apply files memory loc none = (memory, [])
apply files memory loc (some assigned) =
    if memory.limited && leb memory.limit_bytes assigned
    then (keep_limit memory assigned, [])
    else (let e = evidence files loc assigned in
        (assigned_snapshot memory e assigned, append_notes e))

-- `apply_assigned_memory_capacity`, with the environment's `RUNPOD_ASSIGNED_MEMORY_BYTES`
unfoldable pub apply_assigned_memory_capacity :
    Files
    → ReceiptFile
    → Option String
    → MemorySnapshot
    → Option CgroupLocation
    → Result (MemorySnapshot × Warnings)
unfolding apply assigned_memory_capacity
apply_assigned_memory_capacity files file raw memory loc =
    map_result (apply files memory loc) (assigned_memory_capacity file raw memory.host_total_bytes)
