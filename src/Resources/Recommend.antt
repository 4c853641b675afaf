-- ===== src/Resources/Recommend.antt =====
-- `recommend_build_jobs` of tools/pod_resources.py. The two optional numbers are those that `main`
-- passes on, after it refused a per-job memory below 1 and a negative reserve.
pub mod Fits
use runpod_sageattention.Base.{
  ℕ, ◌+◌, ◌-◌, ◌*◌, ◌/◌, min, max, String, Bool, true, false, not, ◌&&◌, Option, none, some, is_nil,
  is_some, get_or, if◌then◌else◌,
}
use runpod_sageattention.Base.Int.{ℤ, pos, negsuc}
use runpod_sageattention.Base.Text.{codes, int10, strip}
use runpod_sageattention.Resources.Snapshot.{MemorySnapshot}
use runpod_sageattention.Resources.Cpu.{CpuSnapshot, positive_int}

-- The environment's variables that the recommendation reads.
pub record BuildEnv : Type 0 where
  pub memory_per_job_mib : Option String
  pub reserve_mib : Option String
  pub build_max_jobs : Option String
  pub max_jobs : Option String

pub record BuildRecommendation : Type 0 where
  pub suggested_jobs : ℕ
  pub jobs_by_cpu : ℕ
  pub jobs_by_memory : ℕ
  pub memory_per_job_bytes : ℕ
  pub reserve_bytes : ℕ
  pub usable_memory_bytes : ℕ
  pub max_jobs_cap : ℕ
  pub forced_single_job : Bool

abbrev mib : ℕ
mib = 1024 * 1024

abbrev default_memory_per_job_mib : ℕ
default_memory_per_job_mib = 8192

abbrev default_reserve_bytes : ℕ
default_reserve_bytes = 4 * (1024 * mib)

abbrev default_max_jobs : ℕ
default_max_jobs = 4

abbrev nonnegative : Option ℤ → Option ℕ
nonnegative (some (pos n)) = some n
nonnegative _ = none

-- `_nonnegative_int`
unfoldable pub nonnegative_int : Option String → Option ℕ
unfolding int10 strip
nonnegative_int none = none
nonnegative_int (some s) = nonnegative (int10 (strip (codes s)))

-- the first value that is given
abbrev first_of : Option ℕ → Option ℕ → Option ℕ
first_of (some n) o = some n
first_of none o = o

unfoldable pub memory_per_job : Option ℕ → BuildEnv → ℕ
unfolding positive_int
memory_per_job given env =
    max 1 (get_or (first_of given (positive_int env.memory_per_job_mib)) default_memory_per_job_mib)
    * mib

abbrev reserve_of : Option ℕ → ℕ → ℕ
reserve_of none capacity = max default_reserve_bytes ((capacity * 15 + 99) / 100)
reserve_of (some n) capacity = n * mib

unfoldable pub reserve : Option ℕ → BuildEnv → ℕ → ℕ
unfolding nonnegative_int
reserve given env capacity = reserve_of (first_of given (nonnegative_int env.reserve_mib)) capacity

unfoldable pub is_forced : MemorySnapshot → Bool
is_forced memory = is_some memory.assigned_capacity_bytes && not memory.usage_trustworthy

unfoldable pub jobs_cap : MemorySnapshot → BuildEnv → ℕ
unfolding is_forced positive_int
jobs_cap memory env =
    if is_forced memory
    then 1
    else get_or (first_of (positive_int env.build_max_jobs) (positive_int env.max_jobs))
        default_max_jobs

-- `recommend_build_jobs`, with the CPU count of `collect_cpu`
unfoldable pub recommend_build_jobs :
    MemorySnapshot → ℕ → BuildEnv → Option ℕ → Option ℕ → BuildRecommendation
unfolding memory_per_job reserve jobs_cap
recommend_build_jobs memory cpu_count env per_job_given reserve_given =
    let capacity =
      if is_nil (codes memory.capacity_source) then memory.limit_bytes else memory.capacity_bytes in
    let per_job = memory_per_job per_job_given env in
    let kept = reserve reserve_given env capacity in
    let usable = (if memory.usage_peak_eligible then memory.available_bytes else 0) - kept in
    let by_memory = max 1 (usable / per_job) in
    let by_cpu = max 1 cpu_count in
    let cap = jobs_cap memory env in
    record {
      suggested_jobs = max 1 (min by_cpu (min by_memory cap));
      jobs_by_cpu = by_cpu;
      jobs_by_memory = by_memory;
      memory_per_job_bytes = per_job;
      reserve_bytes = kept;
      usable_memory_bytes = usable;
      max_jobs_cap = cap;
      forced_single_job = is_forced memory;
    }
