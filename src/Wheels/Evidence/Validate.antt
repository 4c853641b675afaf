-- ===== src/Wheels/Evidence/Validate.antt =====
-- `validate_resource_evidence` of scripts/validate-wheel.py as a whole.
pub mod Peaks
pub mod Sound
use runpod_sageattention.Base.{ℕ, Bool, true, false, if◌then◌else◌}
use runpod_sageattention.Json.{Json, Fields, get, is_str}
use runpod_sageattention.Job.Failure.{Result, ok, err, ◌>>=◌, ◌>>◌}
use runpod_sageattention.Wheels.Evidence.Snapshot.{
  Limits, limits, Snapshot, check_snapshot, need, dict,
}
use runpod_sageattention.Wheels.Evidence.Policy.{check_unchanged, check_policies, check_rss_policy}
use runpod_sageattention.Wheels.Evidence.Peak.{check_cgroup_peak}
use runpod_sageattention.Wheels.Evidence.Sample.{check_rss_peak}

-- Evidence up to its peaks: the two snapshots, the memory policy and the reserve of a build with
-- sampled memory, which is 0 where a cgroup is read.
pub record Bound : Type 0 where
  pub start : Snapshot
  pub later : Snapshot
  pub policy : Fields
  pub is_rss : Bool
  pub reserve : ℕ

unfoldable pub reserve_of : Bool → Snapshot → Snapshot → Fields → Result ℕ
unfolding check_rss_policy
reserve_of is_rss start later parallelism =
    if is_rss then check_rss_policy start later parallelism else ok 0

unfoldable pub bind_evidence : Fields → Fields → Result Bound
unfolding limits check_snapshot check_unchanged check_policies reserve_of
bind_evidence evidence resources = do
  bounds ← limits resources
  policy ← need "build evidence has no memory_policy" (dict (get "memory_policy" evidence))
  start ← check_snapshot bounds (get "resource_start" evidence)
  later ← check_snapshot bounds (get "resource_end" evidence)
  check_unchanged start later
  parallelism ← check_policies evidence policy start
  let is_rss = is_str (get "peak_evidence_mode" policy) "process-group-rss"
  reserve ← reserve_of is_rss start later parallelism
  ok (record { start = start; later = later; policy = policy; is_rss = is_rss; reserve = reserve })

-- The capacity of the policy was found equal to that of the first snapshot.
unfoldable pub check_peaks : Fields → Bound → Result (Unit {0})
unfolding check_cgroup_peak check_rss_peak
check_peaks evidence b = do
  cgroup_peak ← need "build evidence has no cgroup_peak" (dict (get "cgroup_peak" evidence))
  memory_peak ← need "build evidence has no memory_peak" (dict (get "memory_peak" evidence))
  if is_str (get "peak_evidence_mode" b.policy) "cgroup"
      then check_cgroup_peak b.policy cgroup_peak memory_peak b.start.capacity
      else check_rss_peak cgroup_peak memory_peak b.reserve b.start.capacity

-- `validate_resource_evidence`
unfoldable pub validate_resource_evidence : Fields → Fields → Result (Unit {0})
unfolding bind_evidence check_peaks
validate_resource_evidence evidence resources = do
  bound ← bind_evidence evidence resources
  check_peaks evidence bound
