-- ===== src/Resources/Memory/Coherent.antt =====
-- The numbers of a snapshot fit together, whatever the files hold.
use runpod_sageattention.Base.{
  Bool-cases, ◌==◌, ℕ, inl, inr, [], ◌∷◌, ◌≤◌, ◌≡◌, ◌≢◌, is_some, refl, String, true, false, Option,
  none, some, arith, Option-cases,
}
use runpod_sageattention.Resources.Files.{
  stat, FilePath, Files, Stats, parse_meminfo, parse_key_values, read_integer,
}
use runpod_sageattention.Resources.Limit.{CgroupLocation}
use runpod_sageattention.Resources.Snapshot.{
  amount, MemorySnapshot, LeafUsage, host_memory, inactive_bytes, read_leaf_usage, usage_name,
  counter,
}
use runpod_sageattention.Resources.Memory.{
  no_leaf, host_snapshot, limited_snapshot, located_snapshot, effective_memory_limit,
  collect_memory,
}

pub record IsCoherent (m : MemorySnapshot) : Type 0 where
  pub working : m.working_set_bytes ≤ m.current_bytes
  pub inactive : m.inactive_file_bytes ≤ m.current_bytes
  pub swap : m.swap_current_bytes ≤ m.swap_limit_bytes
  pub capacity : m.limited ≡ true → m.capacity_bytes ≡ m.limit_bytes
  pub available : m.limited ≡ true → m.available_bytes ≤ m.capacity_bytes
  pub free : m.limited ≡ true → m.free_bytes ≤ m.available_bytes
  pub unknown : m.limited ≡ true → m.usage_peak_eligible ≡ false → m.available_bytes ≡ 0
  pub unassigned : m.assigned_capacity_bytes ≡ none
  pub hard : m.capacity_is_hard_limit ≡ m.limited
  pub trusted : m.usage_trustworthy ≡ true → m.usage_peak_eligible ≡ true
  pub eligible : m.usage_peak_eligible ≡ true → m.usage_current_bytes ≢ none

inactive-le :
    (version : ℕ) (stats : Stats) (current : ℕ) → inactive_bytes version stats current ≤ current
unfolding inactive_bytes
inactive-le version stats current = omega arith

inactive-unknown : (version : ℕ) (current : ℕ) → inactive_bytes version [] current ≡ 0
unfolding inactive_bytes amount stat
inactive-unknown version current = elim (Bool-cases (version == 1)) [
  | inl e ↦ rw (e, amount, stat) (omega arith)
  | inr e ↦ rw (e, stat) (omega arith)
]

limited-IsCoherent :
    (files : Files) (meminfo : Stats) (loc : CgroupLocation) (n : ℕ) (source : FilePath)
    (usage : Option ℕ)
    → IsCoherent (limited_snapshot files meminfo loc n source usage)
unfolding limited_snapshot
limited-IsCoherent files meminfo loc n source none = ground (arith, inactive-unknown loc.version n)
limited-IsCoherent files meminfo loc n source (some u) =
    ground (arith, inactive-le loc.version (parse_key_values files ("memory.stat" ∷ source)) u)

host-IsCoherent :
    (meminfo : Stats) (leaf : LeafUsage)
    → leaf.readable ≡ is_some leaf.current
    → IsCoherent (host_snapshot meminfo leaf)
unfolding host_snapshot
host-IsCoherent meminfo leaf h = ground arith

read_leaf_usage-readable :
    (files : Files) (loc : CgroupLocation)
    → (read_leaf_usage files loc).readable ≡ is_some (read_leaf_usage files loc).current
unfolding read_leaf_usage
read_leaf_usage-readable files loc =
    elim (Option-cases (counter (read_integer files (usage_name loc.version ∷ loc.current_dir)))) [
      | inl e ↦ rw (e, read_leaf_usage) refl
      | inr (n, e) ↦ rw (e, read_leaf_usage) refl
    ]

located-IsCoherent :
    (files : Files) (meminfo : Stats) (loc : CgroupLocation) (found : ℕ × Option FilePath)
    → IsCoherent (located_snapshot files meminfo loc found).0
unfolding located_snapshot
located-IsCoherent files meminfo loc (n, none) =
    host-IsCoherent meminfo (read_leaf_usage files loc) (read_leaf_usage-readable files loc)
located-IsCoherent files meminfo loc (n, some source) =
    limited-IsCoherent files meminfo loc n source _

-- Whatever /proc/meminfo and the cgroup files hold, the snapshot of `collect_memory` is coherent:
-- working set and inactive bytes are within the usage, swap usage is within the swap limit, a
-- finite limit is the capacity and a hard one, with free ≤ available ≤ capacity and nothing
-- available where the usage is unknown, usage that is trusted is eligible as peak evidence, what
-- is eligible was read, and no assignment is recorded.
pub collect_memory-IsCoherent :
    (files : Files) (meminfo_text : Option String) (loc : Option CgroupLocation)
    → IsCoherent (collect_memory files meminfo_text loc).0
unfolding collect_memory
collect_memory-IsCoherent files meminfo_text none =
    host-IsCoherent (parse_meminfo meminfo_text) no_leaf refl
collect_memory-IsCoherent files meminfo_text (some loc) =
    located-IsCoherent files (parse_meminfo meminfo_text) loc
      (effective_memory_limit files loc (host_memory (parse_meminfo meminfo_text)).total)
