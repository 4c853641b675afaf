-- ===== src/Wheels/Evidence/Policy.antt =====
-- `validate_resource_evidence` of scripts/validate-wheel.py: what must not change during the build,
-- the memory policy and the parallelism.
use runpod_sageattention.Base.{ℕ, String, List, [], ◌∷◌, if◌then◌else◌}
use runpod_sageattention.Json.{Fields, obj, end, field, get}
use runpod_sageattention.Json.Equality.{eq_json}
use runpod_sageattention.Job.Failure.{Result, ok, ◌>>=◌, ◌>>◌}
use runpod_sageattention.Wheels.Evidence.Snapshot.{
  Snapshot, need, require, positive_integer, dict, is_true, is_false, is_one, is_given,
}

-- The fields that keep their values from one dictionary to the other.
unfoldable pub check_bound : String → List String → Fields → Fields → Result (Unit {0})
unfolding require
check_bound text [] start later = ok tt
check_bound text (k ∷ ks) start later = do
  require (eq_json (get k later) (get k start)) text
  check_bound text ks start later

abbrev pub bound_memory_fields : List String
bound_memory_fields =
    "assigned_capacity_bytes" ∷ "capacity_bytes" ∷ "capacity_source" ∷ "capacity_is_hard_limit"
    ∷ "usage_source" ∷ "usage_scope" ∷ "usage_peak_eligible" ∷ "peak_evidence_mode"
    ∷ "usage_trustworthy" ∷ []

-- the comparisons of the two snapshots
unfoldable pub check_unchanged : Snapshot → Snapshot → Result (Unit {0})
unfolding check_bound
check_unchanged start later = do
  check_bound "resource assignment changed during build" bound_memory_fields start.memory
      later.memory
  check_bound "forced-single-job policy changed during build" ("forced_single_job" ∷ []) start.build
      later.build
  check_bound "vCPU assignment changed during build" ("runpod_count" ∷ []) start.cpu later.cpu

unfoldable pub derived_assignment : Snapshot → Fields
derived_assignment start =
    field "memory_bytes" (get "assigned_capacity_bytes" start.memory)
      (field "vcpu_count" (get "runpod_count" start.cpu) end)

unfoldable pub derived_memory_policy : Snapshot → Fields
derived_memory_policy start =
    field "assigned_capacity_bytes" (get "assigned_capacity_bytes" start.memory) (
      field "capacity_bytes" (get "capacity_bytes" start.memory) (
        field "capacity_is_hard_limit" (get "capacity_is_hard_limit" start.memory) (
          field "capacity_source" (get "capacity_source" start.memory) (
            field "forced_single_job" (get "forced_single_job" start.build) (
              field "peak_evidence_mode" (get "peak_evidence_mode" start.memory) (
                field "usage_peak_eligible" (get "usage_peak_eligible" start.memory) (
                  field "usage_scope" (get "usage_scope" start.memory) (
                    field "usage_source" (get "usage_source" start.memory)
                      (field "usage_trustworthy" (get "usage_trustworthy" start.memory) end)))))))))

-- The requirements of one build job, where the policy says so with `True` itself.
unfoldable pub check_single_job : Fields → Fields → Result (Unit {0})
unfolding require
check_single_job policy parallelism =
    if is_true (get "forced_single_job" policy)
    then require (is_one (get "max_jobs" parallelism)) "memory policy requires max_jobs=1"
      >> require (is_one (get "extension_parallelism" parallelism))
          "memory policy requires extension_parallelism=1"
    else ok tt

-- `selected_parallelism` after the policies of the evidence were compared
unfoldable pub check_policies : Fields → Fields → Snapshot → Result Fields
unfolding require derived_assignment derived_memory_policy check_single_job
check_policies evidence policy start = do
  require (eq_json (get "runpod_assignment" evidence) (obj (derived_assignment start)))
      "runpod_assignment does not match resource snapshots"
  require (eq_json (obj policy) (obj (derived_memory_policy start)))
      "memory_policy does not match resource snapshots"
  parallelism ←
      need "build evidence has no selected_parallelism" (dict (get "selected_parallelism" evidence))
  check_single_job policy parallelism
  ok parallelism

abbrev pub rss_build_fields : List String
rss_build_fields = "suggested_jobs" ∷ "max_jobs_cap" ∷ "reserve_bytes" ∷ "memory_per_job_bytes" ∷ []

-- The policy of a build with sampled memory, with its reserve.
unfoldable pub check_rss_policy : Snapshot → Snapshot → Fields → Result ℕ
unfolding check_bound positive_integer require
check_rss_policy start later parallelism = do
  check_bound "RSS fallback build policy changed during build" rss_build_fields start.build
      later.build
  reserve ←
      need "RSS fallback build reserve is missing or invalid"
        (positive_integer (get "reserve_bytes" start.build))
  require (is_given (positive_integer (get "memory_per_job_bytes" start.build)))
      "RSS fallback compiler memory assumption is missing or invalid"
  require (is_false (get "low_resource_override" parallelism))
      "RSS fallback forbids the low-resource override"
  require (is_false (get "unsafe_override" parallelism))
      "RSS fallback forbids the unsafe-parallelism override"
  ok reserve
