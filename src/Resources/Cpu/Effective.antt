-- ===== src/Resources/Cpu/Effective.antt =====
-- The effective CPU count is positive and no larger than any known count, and some limiting source
-- is named.
use runpod_sageattention.Base.{
  filter_map, push, ℕ, max, ◌≤◌, ◌≢◌, String, Option, none, some, List, [], ◌∷◌, arith, All,
  All-append,
}
use runpod_sageattention.Base.Int.{ℤ}
use runpod_sageattention.Base.Text.{Codes, int10, strip, codes, split_on}
use runpod_sageattention.Resources.Files.{FilePath, Files, walk_ancestors}
use runpod_sageattention.Resources.Limit.{CgroupLocation}
use runpod_sageattention.Resources.Cpu.{
  CpuSnapshot, cpu_snapshot, other_candidates, minimum, collect_cpu, Quota, nonzero, quota_jobs,
  positive, count, cpuset_count, parse_cpuset, add_items, cpuset_counts, smallest, at_location,
  cpuset_filenames, read_cpuset, read_cpu_quota, positive_int,
}

-- `bound` is not above the count, if it is known.
abbrev pub AtMost : ℕ → Option ℕ → Type 0
AtMost bound none = Unit
AtMost bound (some n) = bound ≤ n

-- The count that is used is positive, it is no larger than any known count, and some source is named as
-- limiting.
pub record IsEffective (c : CpuSnapshot) : Type 0 where
  pub positive : 1 ≤ c.effective_count
  pub host : c.effective_count ≤ c.host_count
  pub affinity : AtMost c.effective_count c.affinity_count
  pub cpuset : AtMost c.effective_count c.cpuset_count
  pub quota : AtMost c.effective_count c.quota_job_count
  pub runpod : AtMost c.effective_count c.runpod_count
  pub attained : c.limiting_sources ≢ []

cpu_snapshot-IsEffective :
    (host : ℕ) (affinity cpuset quota runpod : Option ℕ)
    → 1 ≤ host
    → AtMost 1 affinity
    → AtMost 1 cpuset
    → AtMost 1 quota
    → AtMost 1 runpod
    → IsEffective (cpu_snapshot host affinity cpuset quota runpod)
unfolding cpu_snapshot other_candidates
cpu_snapshot-IsEffective host affinity cpuset quota runpod h ha hc hq hr = ground arith

nonzero-AtMost : (o : Option ℕ) → AtMost 1 (nonzero o)
nonzero-AtMost o = ground arith

quota_jobs-AtMost : (o : Option Quota) → AtMost 1 (quota_jobs o)
quota_jobs-AtMost none = tt
quota_jobs-AtMost (some (q, p)) = omega arith

positive-AtMost : (o : Option ℤ) → AtMost 1 (positive o)
positive-AtMost o = ground arith

positive_int-AtMost : (o : Option String) → AtMost 1 (positive_int o)
unfolding positive_int
positive_int-AtMost none = tt
positive_int-AtMost (some s) = positive-AtMost (int10 (strip (codes s)))

count-AtMost : (o : Option (List ℕ)) → AtMost 1 (count o)
count-AtMost none = tt
count-AtMost (some []) = tt
count-AtMost (some (c ∷ cpus)) = omega arith

cpuset_count-AtMost : (o : Option String) → AtMost 1 (cpuset_count o)
unfolding parse_cpuset
cpuset_count-AtMost none = tt
cpuset_count-AtMost (some s) = parse_cpuset-AtMost (codes s)
  where
    parse_cpuset-AtMost : (s : Codes) → AtMost 1 (parse_cpuset s)
    parse_cpuset-AtMost s = count-AtMost (add_items (split_on b',' (strip s)) (some []))

filter_map-Positive :
    (f : String → Option ℕ) (names : List String)
    → ((name : String) → AtMost 1 (f name))
    → All (λ n. 1 ≤ n) (filter_map f names)
filter_map-Positive f [] h = tt
filter_map-Positive f (name ∷ names) h =
    push-Positive (f name) (filter_map f names) (h name) (filter_map-Positive f names h)
  where
    push-Positive :
        (o : Option ℕ) (ns : List ℕ)
        → AtMost 1 o
        → All (λ n. 1 ≤ n) ns
        → All (λ n. 1 ≤ n) (push o ns)
    push-Positive none ns h hs = hs
    push-Positive (some n) ns h hs = (h, hs)

cpuset_counts-Positive :
    (files : Files) (names : List String) (ds : List FilePath)
    → All (λ n. 1 ≤ n) (cpuset_counts files names ds)
unfolding cpuset_counts
cpuset_counts-Positive files names [] = tt
cpuset_counts-Positive files names (d ∷ ds) =
    All-append (λ n. 1 ≤ n) (filter_map (λ name. cpuset_count (files (name ∷ d))) names)
      (cpuset_counts files names ds)
      (filter_map-Positive (λ name. cpuset_count (files (name ∷ d))) names
        (λ name. cpuset_count-AtMost (files (name ∷ d))))
      (cpuset_counts-Positive files names ds)

smallest-AtMost : (ns : List ℕ) → All (λ n. 1 ≤ n) ns → AtMost 1 (smallest ns)
smallest-AtMost [] h = tt
smallest-AtMost (n ∷ ns) h = minimum-positive n ns h.0 h.1
  where
    minimum-positive : (n : ℕ) (ns : List ℕ) → 1 ≤ n → All (λ n. 1 ≤ n) ns → 1 ≤ minimum n ns
    minimum-positive n [] h hs = h
    minimum-positive n (m ∷ ns) h hs = omega (arith, hs.0, minimum-positive m ns hs.0 hs.1)

read_cpuset-AtMost :
    (files : Files) (loc : Option CgroupLocation) → AtMost 1 (at_location (read_cpuset files) loc)
unfolding read_cpuset
read_cpuset-AtMost files none = tt
read_cpuset-AtMost files (some loc) =
    smallest-AtMost
      (cpuset_counts files (cpuset_filenames loc.version)
        (walk_ancestors loc.current_dir loc.mount_dir))
      (cpuset_counts-Positive files (cpuset_filenames loc.version)
        (walk_ancestors loc.current_dir loc.mount_dir))

-- Whatever the files, the environment and the operating system say, the effective count of
-- `collect_cpu` is positive, it is not above the host's count, the affinity, the cpuset, the quota
-- or the Pod's count where these are known, and some source is named as limiting.
pub collect_cpu-IsEffective :
    (files : Files) (cpuset_loc cpu_loc : Option CgroupLocation) (host : ℕ) (affinity : Option ℕ)
    (runpod : Option String)
    → IsEffective (collect_cpu files cpuset_loc cpu_loc host affinity runpod)
unfolding collect_cpu
collect_cpu-IsEffective files cpuset_loc cpu_loc host affinity runpod =
    cpu_snapshot-IsEffective (max 1 host) (nonzero affinity)
      (at_location (read_cpuset files) cpuset_loc)
      (quota_jobs (at_location (read_cpu_quota files) cpu_loc)) (positive_int runpod) (omega arith)
      (nonzero-AtMost affinity) (read_cpuset-AtMost files cpuset_loc)
      (quota_jobs-AtMost (at_location (read_cpu_quota files) cpu_loc)) (positive_int-AtMost runpod)
