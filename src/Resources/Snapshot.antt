-- ===== src/Resources/Snapshot.antt =====
-- `MemorySnapshot` of tools/pod_resources.py and the readers that fill it: the host's memory, the
-- counter of a cgroup and the names of its sources.
use runpod_sageattention.Base.{
  ℕ, ◌+◌, ◌-◌, min, String, ◌<>◌, Bool, true, false, not, ◌||◌, Option, none, some, List, [], ◌∷◌,
  ◌==◌, get_or, is_nil, if◌then◌else◌,
}
use runpod_sageattention.Base.Int.{ℤ, pos, negsuc, pos_part}
use runpod_sageattention.Base.Text.{Codes, codes, eq_codes, split_on, ends_with}
use runpod_sageattention.Base.Print.{show_ℕ}
use runpod_sageattention.Resources.Files.{
  FilePath, Files, Stats, eq_path, stat, read_integer, parse_key_values,
}
use runpod_sageattention.Resources.Limit.{CgroupLocation}

pub record MemorySnapshot : Type 0 where
  pub limited : Bool
  pub host_total_bytes : ℕ
  pub limit_bytes : ℕ
  pub current_bytes : ℕ
  pub working_set_bytes : ℕ
  pub inactive_file_bytes : ℕ
  pub free_bytes : ℕ
  pub available_bytes : ℕ
  pub high_bytes : Option ℕ
  pub limit_source : String
  pub swap_limit_bytes : ℕ
  pub swap_current_bytes : ℕ
  pub capacity_bytes : ℕ
  pub capacity_source : String
  pub capacity_is_hard_limit : Bool
  pub assigned_capacity_bytes : Option ℕ
  pub usage_source : String
  pub usage_current_bytes : Option ℕ
  pub usage_trustworthy : Bool
  pub usage_peak_eligible : Bool
  pub usage_scope : String
  pub peak_evidence_mode : String

-- `max(0, meminfo.get(key, 0))`
unfoldable pub amount : Stats → String → ℕ
unfolding stat
amount meminfo key = pos_part (get_or (stat (codes key) meminfo) (pos 0))

pub record HostMemory : Type 0 where
  pub total : ℕ
  pub current : ℕ
  pub free : ℕ
  pub available : ℕ

abbrev available_or : Option ℤ → ℕ → ℕ
available_or none estimate = estimate
available_or (some n) estimate = pos_part n

-- `_host_memory`
unfoldable pub host_memory : Stats → HostMemory
unfolding amount
host_memory meminfo =
    let total = amount meminfo "MemTotal" in
    let free = amount meminfo "MemFree" in
    let cache = amount meminfo "Cached" + amount meminfo "SReclaimable" in
    let claimed =
      available_or (stat (codes "MemAvailable") meminfo)
        (free + cache + amount meminfo "Buffers") in
    let available = if total == 0 then claimed else min total claimed in
    record { total = total; current = total - available; free = free; available = available }

-- the components of `posixpath.normpath("/" + path.lstrip("/"))`, the innermost first
abbrev normal_step : Codes → List Codes → List Codes
normal_step part parts =
    if is_nil part || eq_codes part (codes ".")
    then parts
    else if eq_codes part (codes "..")
    then drop_one parts
    else part ∷ parts
  where
    drop_one : List Codes → List Codes
    drop_one [] = []
    drop_one (p ∷ ps) = ps

unfoldable pub normal_parts : List Codes → List Codes → List Codes
normal_parts [] parts = parts
normal_parts (p ∷ ps) parts = normal_parts ps (normal_step p parts)

unfoldable pub is_root_path : String → Bool
unfolding normal_parts split_on
is_root_path path = is_nil (normal_parts (split_on b'/' (codes path)) [])

-- `_leaf_is_pod_scoped`
unfoldable pub leaf_is_pod_scoped : CgroupLocation → Bool
unfolding is_root_path
leaf_is_pod_scoped loc = not (is_root_path loc.membership_path) || not (is_root_path loc.mount_root)

abbrev cons_part : String → Option FilePath → Option FilePath
cons_part a none = none
cons_part a (some p) = some (a ∷ p)

-- `source.relative_to(mount_dir)`
unfoldable pub relative_to : FilePath → FilePath → Option FilePath
relative_to [] root = if eq_path [] root then some [] else none
relative_to (a ∷ p) root =
    let rest = cons_part a (relative_to p root) in if eq_path (a ∷ p) root then some [] else rest

-- the posix text of a relative path
unfoldable pub path_text : FilePath → String
path_text [] = ""
path_text (a ∷ []) = a
path_text (a ∷ b ∷ p) = path_text (b ∷ p) <> ("/" <> a)

-- `posixpath.join(base, rel)` for a relative `rel`
unfoldable pub join_path : String → String → String
unfolding ends_with
join_path base rel =
    if is_nil (codes base) || ends_with base "/" then base <> rel else base <> ("/" <> rel)

abbrev logical_path : String → Option FilePath → String
unfolding path_text join_path
logical_path base none = base
logical_path base (some []) = base
logical_path base (some (a ∷ p)) = join_path base (path_text (a ∷ p))

-- `_logical_source`
unfoldable pub logical_source : CgroupLocation → Option FilePath → String
unfolding logical_path relative_to show_ℕ
logical_source loc none = "host"
logical_source loc (some source) =
    "cgroup-v"
    <> (show_ℕ loc.version
        <> (":" <> logical_path loc.mount_point (relative_to source loc.mount_dir)))

-- `_memory_filenames`
unfoldable pub usage_name : ℕ → String
usage_name version = if version == 2 then "memory.current" else "memory.usage_in_bytes"

unfoldable pub inactive_key : ℕ → String
inactive_key version = if version == 2 then "inactive_file" else "total_inactive_file"

-- a counter that was read and is not negative
abbrev pub counter : Option ℤ → Option ℕ
counter none = none
counter (some (pos n)) = some n
counter (some (negsuc n)) = none

-- the inactive file bytes of `memory.stat`, not above the usage
unfoldable pub inactive_bytes : ℕ → Stats → ℕ → ℕ
unfolding inactive_key amount
inactive_bytes version stats current =
    let value : ℕ = elim (stat (codes (inactive_key version)) stats) [
      | some n ↦ pos_part n
      | none ↦ if version == 1 then amount stats "inactive_file" else 0
    ] in
    min value current

pub record LeafUsage : Type 0 where
  pub current : Option ℕ
  pub inactive : ℕ
  pub source : String
  pub readable : Bool
  pub scoped : Bool

-- `_read_leaf_usage`
unfoldable pub read_leaf_usage : Files → CgroupLocation → LeafUsage
unfolding usage_name inactive_bytes leaf_is_pod_scoped logical_source
read_leaf_usage files loc =
    elim (counter (read_integer files (usage_name loc.version ∷ loc.current_dir))) [
      | none ↦ record {
        current = none;
        inactive = 0;
        source = "";
        readable = false;
        scoped = leaf_is_pod_scoped loc;
      }
      | some current ↦ record {
        current = some current;
        inactive =
            inactive_bytes loc.version (parse_key_values files ("memory.stat" ∷ loc.current_dir))
              current;
        source = logical_source loc (some loc.current_dir);
        readable = true;
        scoped = leaf_is_pod_scoped loc;
      }
    ]
