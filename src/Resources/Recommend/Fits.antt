-- ===== src/Resources/Recommend/Fits.antt =====
-- The suggested jobs fit into the memory that is available.
use native.Mathlib.Nat.{le_trans, div-le_self, mul-le-mul_right, div-mul-le_self}
use runpod_sageattention.Base.{
  refl, ℕ, ◌+◌, ◌-◌, ◌*◌, ◌/◌, min, max, ◌≤◌, ◌<◌, ◌≡◌, ◌≢◌, Bool, true, false, Option, none, arith,
  if◌then◌else◌,
}
use runpod_sageattention.Resources.Snapshot.{MemorySnapshot}
use runpod_sageattention.Resources.Recommend.{
  BuildEnv, BuildRecommendation, recommend_build_jobs, is_forced, jobs_cap,
}

-- A recommendation that suits the memory: at least one job, no more than the CPUs and the cap,
-- several only if their memory and the reserve are available on evidence that was read, and one if
-- an assignment is not backed by trusted usage.
pub record Fits (memory : MemorySnapshot) (cpu_count : ℕ) (b : BuildRecommendation) : Type 0 where
  pub positive : 1 ≤ b.suggested_jobs
  pub cpu : b.suggested_jobs ≤ max 1 cpu_count
  pub cap : b.suggested_jobs ≤ max 1 b.max_jobs_cap
  pub fit :
      1 < b.suggested_jobs
      → b.suggested_jobs * b.memory_per_job_bytes + b.reserve_bytes ≤ memory.available_bytes
  pub evidence : 1 < b.suggested_jobs → memory.usage_peak_eligible ≡ true
  pub forced :
      memory.assigned_capacity_bytes ≢ none
      → memory.usage_trustworthy ≡ false
      → b.suggested_jobs ≡ 1

jobs-fit :
    (n usable per_job : ℕ) → 1 < n → n ≤ usable / per_job → (n * per_job ≤ usable) × (0 < usable)
jobs-fit n usable per_job more h = (
  le_trans (mul-le-mul_right per_job h) (div-mul-le_self usable per_job),
  omega (arith, div-le_self usable per_job),
)

several-fit :
    (n usable kept available per_job : ℕ) (eligible : Bool)
    → 1 < n
    → n ≤ usable / per_job
    → usable ≡ (if eligible then available else 0) - kept
    → (n * per_job + kept ≤ available) × (eligible ≡ true)
several-fit n usable kept available per_job eligible more h e =
    let (fit, some_usable) = jobs-fit n usable per_job more h in (ground arith, ground arith)

within-quotient :
    (c q k : ℕ) → 1 < max 1 (min c (min (max 1 q) k)) → max 1 (min c (min (max 1 q) k)) ≤ q
within-quotient c q k h = omega arith

single : (c m k : ℕ) → k ≡ 1 → max 1 (min c (min m k)) ≡ 1
single c m k h = omega arith

forced-cap :
    (memory : MemorySnapshot) (env : BuildEnv)
    → memory.assigned_capacity_bytes ≢ none
    → memory.usage_trustworthy ≡ false
    → jobs_cap memory env ≡ 1
unfolding jobs_cap is_forced
forced-cap memory env given untrusted = ground arith

-- Whatever the snapshot, the environment and the options, the jobs of `recommend_build_jobs` are at
-- least one and at most the CPU count and the cap; several jobs need that their memory with the
-- reserve is available and that the usage was read; without trusted usage an assignment allows one.
pub recommend_build_jobs-Fits :
    (memory : MemorySnapshot) (cpu_count : ℕ) (env : BuildEnv)
    (per_job_given reserve_given : Option ℕ)
    → Fits memory cpu_count (recommend_build_jobs memory cpu_count env per_job_given reserve_given)
unfolding recommend_build_jobs
recommend_build_jobs-Fits memory cpu_count env per_job_given reserve_given =
    let b = recommend_build_jobs memory cpu_count env per_job_given reserve_given in
    let fit : 1 < b.suggested_jobs
        → (b.suggested_jobs * b.memory_per_job_bytes + b.reserve_bytes ≤ memory.available_bytes)
          × (memory.usage_peak_eligible ≡ true) =
      λ more.
        several-fit b.suggested_jobs b.usable_memory_bytes b.reserve_bytes memory.available_bytes
          b.memory_per_job_bytes memory.usage_peak_eligible more
          (within-quotient (max 1 cpu_count) (b.usable_memory_bytes / b.memory_per_job_bytes)
            b.max_jobs_cap more)
          refl in
    record {
      positive = omega arith;
      cpu = omega arith;
      cap = omega arith;
      fit = λ more. (fit more).0;
      evidence = λ more. (fit more).1;
      forced = λ given untrusted.
          single (max 1 cpu_count) b.jobs_by_memory b.max_jobs_cap
            (forced-cap memory env given untrusted);
    }
