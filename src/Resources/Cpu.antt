-- ===== src/Resources/Cpu.antt =====
-- The CPU part of tools/pod_resources.py: `parse_cpuset`, `_read_cpuset`, `_read_cpu_quota` and
-- `collect_cpu`, from the locations that `locate_cgroup` returned. A quota is a pair of native
-- numbers; `quota_cores`, its rounded float for display, is left out.
pub mod Effective
use runpod_sageattention.Base.{
  ℕ, ◌+◌, ◌-◌, ◌*◌, ◌/◌, min, max, ◌≡◌, refl, String, Bool, true, false, not, ◌&&◌, ◌||◌, Option,
  none, some, List, [], ◌∷◌, ◌++◌, zero, suc, map, ltb, leb, ◌==◌, any, length, push, get_or,
  filter_map, if◌then◌else◌,
}
use runpod_sageattention.Base.Int.{ℤ, pos, negsuc}
use runpod_sageattention.Base.Text.{Codes, codes, eq_codes, strip, split_on, words, int10}
use runpod_sageattention.Resources.Files.{
  FilePath, Files, walk_ancestors, read_integer, split_first,
}
use runpod_sageattention.Resources.Limit.{CgroupLocation}

-- `cpus.add(cpu)`
unfoldable pub add_cpu : ℕ → List ℕ → List ℕ
add_cpu n cpus = if any (λ m. n == m) cpus then cpus else n ∷ cpus

-- `cpus.update(range(first, first + count))`
unfoldable pub add_range : ℕ → ℕ → List ℕ → List ℕ
unfolding add_cpu
add_range first zero cpus = cpus
add_range first (suc count) cpus = add_range (first + 1) count (add_cpu first cpus)

abbrev add_interval : Option ℤ → Option ℤ → List ℕ → Option (List ℕ)
unfolding add_range
add_interval (some (pos first)) (some (pos last)) cpus =
    if ltb last first || ltb 1000000 (last - first)
    then none
    else some (add_range first (last - first + 1) cpus)
add_interval _ _ cpus = none

abbrev add_one : Option ℤ → List ℕ → Option (List ℕ)
unfolding add_cpu
add_one (some (pos n)) cpus = some (add_cpu n cpus)
add_one _ cpus = none

abbrev add_item : Codes → Option (Codes × Codes) → List ℕ → Option (List ℕ)
unfolding int10
add_item item none cpus = add_one (int10 item) cpus
add_item item (some (first, last)) cpus = add_interval (int10 first) (int10 last) cpus

-- The loop over the items; `none` is the early return or the ValueError.
unfoldable pub add_items : List Codes → Option (List ℕ) → Option (List ℕ)
unfolding add_item add_one add_interval split_first
add_items items none = none
add_items [] (some cpus) = some cpus
add_items ([] ∷ items) (some cpus) = add_items items (some cpus)
add_items ((c ∷ s) ∷ items) (some cpus) =
    add_items items (add_item (c ∷ s) (split_first b'-' (c ∷ s)) cpus)

abbrev pub count : Option (List ℕ) → Option ℕ
count none = none
count (some []) = none
count (some (c ∷ cpus)) = some (length (c ∷ cpus))

-- `parse_cpuset`
unfoldable pub parse_cpuset : Codes → Option ℕ
unfolding add_items strip split_on
parse_cpuset value = count (add_items (split_on b',' (strip value)) (some []))

cpuset_test : parse_cpuset (codes " 0-3,2,8,\n") ≡ some 5
unfolding parse_cpuset
cpuset_test = refl

abbrev pub cpuset_filenames : ℕ → List String
cpuset_filenames version =
    (if version == 2 then "cpuset.cpus.effective" else "cpuset.effective_cpus") ∷ "cpuset.cpus" ∷ []

abbrev pub cpuset_count : Option String → Option ℕ
unfolding parse_cpuset
cpuset_count none = none
cpuset_count (some s) = parse_cpuset (codes s)

-- the counts of all visible cpuset files, in the order of the walk
unfoldable pub cpuset_counts : Files → List String → List FilePath → List ℕ
unfolding cpuset_count
cpuset_counts files names [] = []
cpuset_counts files names (d ∷ ds) =
    filter_map (λ name. cpuset_count (files (name ∷ d))) names ++ cpuset_counts files names ds

-- `min(x, *xs)`
abbrev pub minimum : ℕ → List ℕ → ℕ
minimum x [] = x
minimum x (y ∷ ys) = min x (minimum y ys)

abbrev pub smallest : List ℕ → Option ℕ
smallest [] = none
smallest (x ∷ xs) = some (minimum x xs)

-- `_read_cpuset`
unfoldable pub read_cpuset : Files → CgroupLocation → Option ℕ
unfolding cpuset_counts
read_cpuset files loc = smallest (
    cpuset_counts files (cpuset_filenames loc.version)
      (walk_ancestors loc.current_dir loc.mount_dir))

-- a quota in microseconds and its period
abbrev pub Quota : Type 0
Quota = ℕ × ℕ

abbrev pub positive_quota : Option ℤ → Option ℤ → Option Quota
positive_quota (some (pos q)) (some (pos p)) = if (q == 0) || (p == 0) then none else some (q, p)
positive_quota _ _ = none

abbrev quota_fields : List Codes → Option Quota
unfolding int10
quota_fields (q ∷ p ∷ []) =
    if eq_codes q (codes "max") then none else positive_quota (int10 q) (int10 p)
quota_fields _ = none

abbrev cpu_max : Option String → Option Quota
unfolding words quota_fields
cpu_max none = none
cpu_max (some s) = quota_fields (words (codes s))

-- the quota that one directory sets, if it is positive
unfoldable pub directory_quota : Files → ℕ → FilePath → Option Quota
unfolding cpu_max
directory_quota files version d =
    if version == 2
    then cpu_max (files ("cpu.max" ∷ d))
    else positive_quota (read_integer files ("cpu.cfs_quota_us" ∷ d))
        (read_integer files ("cpu.cfs_period_us" ∷ d))

-- `Fraction(q, p) < Fraction(r, s)`
abbrev pub is_less : Quota → Quota → Bool
is_less (q, p) (r, s) = ltb (q * s) (r * p)

abbrev pub tighter : Option Quota → Option Quota → Option Quota
tighter none effective = effective
tighter (some c) none = some c
tighter (some c) (some e) = if is_less c e then some c else some e

unfoldable pub find_quota : Files → ℕ → List FilePath → Option Quota → Option Quota
unfolding directory_quota
find_quota files version [] effective = effective
find_quota files version (d ∷ ds) effective =
    find_quota files version ds (tighter (directory_quota files version d) effective)

-- `_read_cpu_quota`
unfoldable pub read_cpu_quota : Files → CgroupLocation → Option Quota
unfolding find_quota
read_cpu_quota files loc =
    find_quota files loc.version (walk_ancestors loc.current_dir loc.mount_dir) none

abbrev pub positive : Option ℤ → Option ℕ
positive (some (pos n)) = if ltb 0 n then some n else none
positive _ = none

-- `_positive_int` of an environment's value
unfoldable pub positive_int : Option String → Option ℕ
unfolding int10 strip
positive_int none = none
positive_int (some s) = positive (int10 (strip (codes s)))

abbrev pub CpuSource : Type 0
CpuSource = String × ℕ

abbrev named : String → Option ℕ → Option CpuSource
named name none = none
named name (some n) = some (name, n)

-- The counts that are known beside the host's, in the source's order.
unfoldable pub other_candidates : Option ℕ → Option ℕ → Option ℕ → Option ℕ → List CpuSource
other_candidates affinity cpuset quota runpod =
    push (named "affinity" affinity)
      (push (named "cpuset" cpuset) (push (named "quota" quota) (push (named "runpod" runpod) [])))

abbrev pub names_of : ℕ → List CpuSource → List String
names_of effective [] = []
names_of effective ((name, n) ∷ cs) =
    push (if n == effective then some name else none) (names_of effective cs)

pub record CpuSnapshot : Type 0 where
  pub host_count : ℕ
  pub affinity_count : Option ℕ
  pub cpuset_count : Option ℕ
  pub quota_job_count : Option ℕ
  pub runpod_count : Option ℕ
  pub effective_count : ℕ
  pub limiting_sources : List String

abbrev pub quota_jobs : Option Quota → Option ℕ
quota_jobs none = none
quota_jobs (some (q, p)) = some (max 1 (q / p))

abbrev pub nonzero : Option ℕ → Option ℕ
nonzero none = none
nonzero (some n) = if n == 0 then none else some n

-- The snapshot of the known counts.
unfoldable pub cpu_snapshot : ℕ → Option ℕ → Option ℕ → Option ℕ → Option ℕ → CpuSnapshot
unfolding other_candidates
cpu_snapshot host affinity cpuset quota runpod =
    let others = other_candidates affinity cpuset quota runpod in
    let effective = max 1 (minimum host (map (λ c. c.1) others)) in
    record {
      host_count = host;
      affinity_count = affinity;
      cpuset_count = cpuset;
      quota_job_count = quota;
      runpod_count = runpod;
      effective_count = effective;
      limiting_sources = names_of effective (("host", host) ∷ others);
    }

abbrev pub at_location :
    {A : Type 0} → (CgroupLocation → Option A) → Option CgroupLocation → Option A
at_location f none = none
at_location f (some loc) = f loc

-- `collect_cpu`. The host's count and the affinity are the operating system's answers, where 0 is
-- an unknown host; the text is `RUNPOD_CPU_COUNT`.
unfoldable pub collect_cpu :
    Files
    → Option CgroupLocation
    → Option CgroupLocation
    → ℕ
    → Option ℕ
    → Option String
    → CpuSnapshot
unfolding cpu_snapshot read_cpuset read_cpu_quota positive_int
collect_cpu files cpuset_loc cpu_loc host affinity runpod =
    cpu_snapshot (max 1 host) (nonzero affinity) (at_location (read_cpuset files) cpuset_loc)
      (quota_jobs (at_location (read_cpu_quota files) cpu_loc)) (positive_int runpod)
