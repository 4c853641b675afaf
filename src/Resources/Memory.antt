-- ===== src/Resources/Memory.antt =====
-- `collect_memory` of tools/pod_resources.py, from the location that `locate_cgroup` returned for
-- the memory controller. Warnings are returned beside the snapshot.
pub mod Coherent
use runpod_sageattention.Base.{
  ℕ, ◌+◌, ◌-◌, min, String, Bool, true, false, not, ◌&&◌, ◌||◌, Option, none, some, List, [], ◌∷◌,
  ltb, leb, ◌==◌, is_some, get_or, if◌then◌else◌,
}
use runpod_sageattention.Base.Int.{ℤ, pos, negsuc, pos_part}
use runpod_sageattention.Base.Text.{codes}
use runpod_sageattention.Resources.Files.{
  FilePath, Files, Stats, stat, read_integer, parse_key_values, parse_meminfo, unlimited_threshold,
}
use runpod_sageattention.Resources.Limit.{CgroupLocation, find_effective_limit}
use runpod_sageattention.Resources.Snapshot.{
  MemorySnapshot, HostMemory, LeafUsage, amount, host_memory, logical_source, usage_name, counter,
  inactive_bytes, read_leaf_usage,
}

-- The usage part of a snapshot without a finite limit.
abbrev leaf_scope : LeafUsage → String
leaf_scope leaf =
    if leaf.readable && leaf.scoped
    then "pod-cgroup"
    else if leaf.readable
    then "ambiguous-cgroup-root"
    else "unavailable"

-- The snapshot of the host, with what is known of the leaf's usage.
unfoldable pub host_snapshot : Stats → LeafUsage → MemorySnapshot
unfolding host_memory
host_snapshot meminfo leaf =
    let host = host_memory meminfo in
    let swap_total = amount meminfo "SwapTotal" in
    record {
      limited = false;
      host_total_bytes = host.total;
      limit_bytes = host.total;
      current_bytes = host.current;
      working_set_bytes = host.current;
      inactive_file_bytes = 0;
      free_bytes = host.free;
      available_bytes = host.available;
      high_bytes = none;
      limit_source = "host";
      swap_limit_bytes = swap_total;
      swap_current_bytes = swap_total - amount meminfo "SwapFree";
      capacity_bytes = host.total;
      capacity_source = "host";
      capacity_is_hard_limit = false;
      assigned_capacity_bytes = none;
      usage_source = leaf.source;
      usage_current_bytes = leaf.current;
      usage_trustworthy = leaf.readable && leaf.scoped;
      usage_peak_eligible = leaf.readable;
      usage_scope = leaf_scope leaf;
      peak_evidence_mode = if leaf.readable then "cgroup" else "unavailable";
    }

abbrev pub no_leaf : LeafUsage
no_leaf = record { current = none; inactive = 0; source = ""; readable = false; scoped = false }

-- `hierarchical is not None and 0 < hierarchical < UNLIMITED_THRESHOLD`
abbrev hierarchical_limit : Option ℤ → Option ℕ
hierarchical_limit none = none
hierarchical_limit (some (negsuc n)) = none
hierarchical_limit (some (pos n)) = if ltb 0 n && ltb n unlimited_threshold then some n else none

abbrev with_hierarchical : FilePath → Option ℕ → ℕ × Option FilePath → ℕ × Option FilePath
with_hierarchical leaf none found = found
with_hierarchical leaf (some h) (n, source) =
    if (n == 0) || leb h n then (h, some leaf) else (n, source)

-- The effective memory limit, with the inherited bound that cgroup v1 shows in `memory.stat`.
unfoldable pub effective_memory_limit : Files → CgroupLocation → ℕ → ℕ × Option FilePath
unfolding stat
effective_memory_limit files loc host_total =
    if loc.version == 2
    then find_effective_limit files loc "memory.max" host_total
    else (let found = find_effective_limit files loc "memory.limit_in_bytes" host_total in
        if loc.version == 1
        then with_hierarchical loc.current_dir
            (hierarchical_limit (
              stat (codes "hierarchical_memory_limit")
                (parse_key_values files ("memory.stat" ∷ loc.current_dir))))
            found
        else found)

-- `high if high_source is not None and high < effective else None`
abbrev high_value : ℕ → ℕ × Option FilePath → Option ℕ
high_value effective (n, none) = none
high_value effective (n, some d) = if ltb n effective then some n else none

-- The swap limit and usage before they are made consistent.
abbrev swap_v2 : Files → ℕ × ℕ → ℕ × Option FilePath → ℕ × ℕ
swap_v2 files host (n, none) = host
swap_v2 files host (n, some d) =
    (n, pos_part (get_or (read_integer files ("memory.swap.current" ∷ d)) (pos 0)))

-- the difference of two counters, not below zero
abbrev difference : Option ℤ → Option ℤ → Option ℕ
difference (some (pos a)) (some (pos b)) = some (a - b)
difference (some (pos a)) (some (negsuc b)) = some (a + b + 1)
difference (some (negsuc a)) (some (pos b)) = some 0
difference (some (negsuc a)) (some (negsuc b)) = some (b - a)
difference _ _ = none

abbrev swap_v1 : Files → ℕ → ℕ × ℕ → ℕ × Option FilePath → ℕ × ℕ
swap_v1 files effective (limit, current) (n, none) = (limit, current)
swap_v1 files effective (limit, current) (n, some d) =
    if leb effective n
    then (
      min limit (n - effective),
      get_or
          (difference (read_integer files ("memory.memsw.usage_in_bytes" ∷ d))
            (read_integer files ("memory.usage_in_bytes" ∷ d)))
          current,
    )
    else (limit, current)

unfoldable pub swap : Files → CgroupLocation → ℕ → ℕ × ℕ → ℕ × ℕ
swap files loc effective (limit, current) =
    if not (ltb 0 limit)
    then (limit, current)
    else if loc.version == 2
    then swap_v2 files (limit, current) (find_effective_limit files loc "memory.swap.max" limit)
    else if loc.version == 1
    then swap_v1 files effective (limit, current)
        (find_effective_limit files loc "memory.memsw.limit_in_bytes" 0)
    else (limit, current)

-- The snapshot of a cgroup with a finite limit, from its usage counter.
unfoldable pub limited_snapshot :
    Files → Stats → CgroupLocation → ℕ → FilePath → Option ℕ → MemorySnapshot
unfolding host_memory swap
limited_snapshot files meminfo loc effective source usage =
    let current = get_or usage effective in
    let stats = if is_some usage then parse_key_values files ("memory.stat" ∷ source) else [] in
    let inactive = inactive_bytes loc.version stats current in
    let working = current - inactive in
    let host_total = (host_memory meminfo).total in
    let swap_total = amount meminfo "SwapTotal" in
    let (swap_limit, swap_current) =
      swap files loc effective (swap_total, swap_total - amount meminfo "SwapFree") in
    record {
      limited = true;
      host_total_bytes = host_total;
      limit_bytes = effective;
      current_bytes = current;
      working_set_bytes = working;
      inactive_file_bytes = inactive;
      free_bytes = effective - current;
      available_bytes = effective - working;
      high_bytes = high_value effective (
          find_effective_limit files loc
            (if loc.version == 2 then "memory.high" else "memory.soft_limit_in_bytes") host_total);
      limit_source = logical_source loc (some source);
      swap_limit_bytes = swap_limit;
      swap_current_bytes = min swap_current swap_limit;
      capacity_bytes = effective;
      capacity_source = logical_source loc (some source);
      capacity_is_hard_limit = true;
      assigned_capacity_bytes = none;
      usage_source = if is_some usage then logical_source loc (some source) else "";
      usage_current_bytes = usage;
      usage_trustworthy = is_some usage;
      usage_peak_eligible = is_some usage;
      usage_scope = if is_some usage then "cgroup-capacity" else "unavailable";
      peak_evidence_mode = if is_some usage then "cgroup" else "unavailable";
    }

abbrev pub Warnings : Type 0
Warnings = List String

unfoldable pub located_snapshot :
    Files → Stats → CgroupLocation → ℕ × Option FilePath → MemorySnapshot × Warnings
unfolding host_snapshot limited_snapshot
located_snapshot files meminfo loc (n, none) =
    (host_snapshot meminfo (read_leaf_usage files loc), [])
located_snapshot files meminfo loc (n, some source) =
    let usage = counter (read_integer files (usage_name loc.version ∷ source)) in
    (
      limited_snapshot files meminfo loc n source usage,
      if is_some usage then [] else "cannot read current memory usage" ∷ [],
    )

-- `collect_memory`
unfoldable pub collect_memory :
    Files → Option String → Option CgroupLocation → MemorySnapshot × Warnings
unfolding located_snapshot effective_memory_limit
collect_memory files meminfo_text none =
    let meminfo = parse_meminfo meminfo_text in
    (
      host_snapshot meminfo no_leaf,
      if (host_memory meminfo).total == 0
          then "unable to read host memory or locate a memory cgroup" ∷ []
          else [],
    )
collect_memory files meminfo_text (some loc) =
    let meminfo = parse_meminfo meminfo_text in
    located_snapshot files meminfo loc
      (effective_memory_limit files loc (host_memory meminfo).total)
