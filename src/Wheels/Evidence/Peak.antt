-- ===== src/Wheels/Evidence/Peak.antt =====
-- `validate_resource_evidence` of scripts/validate-wheel.py: the peak of a cgroup, and the sampled
-- peak of the build's process group.
use runpod_sageattention.Base.{ℕ, String, Bool, true, false, ◌&&◌, List, [], ◌∷◌, leb, all}
use runpod_sageattention.Base.Int.{pos}
use runpod_sageattention.Json.{Json, Fields, null, bool, int, str, obj, end, field, get}
use runpod_sageattention.Json.Equality.{eq_json}
use runpod_sageattention.Job.Failure.{Result, ok, ◌>>=◌, ◌>>◌}
use runpod_sageattention.Job.Spec.{contains}
use runpod_sageattention.Wheels.Select.{keys}
use runpod_sageattention.Wheels.Evidence.Snapshot.{
  need, require, positive_integer, is_true, is_false, is_null,
}

-- the memory peak that the cgroup's numbers give
unfoldable pub expected_cgroup_peak : Fields → ℕ → ℕ → Fields
expected_cgroup_peak policy peak_start peak_end = field "available" (bool true) (
    field "complete" (bool true) (
      field "end_bytes" (int (pos peak_end)) (
        field "includes_file_cache" (bool true) (
          field "kernel_enforced" (get "capacity_is_hard_limit" policy) (
            field "method" (str "kernel-cgroup-peak") (
              field "mode" (str "cgroup") (
                field "peak_bytes" (int (pos peak_end)) (
                  field "sample_interval_ms" null (
                    field "scope" (get "usage_scope" policy) (
                      field "source" (get "usage_source" policy) (
                        field "start_bytes" (int (pos peak_start))
                          (field "within_selected_capacity" (bool true) end))))))))))))

-- The branch with the peak of a cgroup. The selected capacity is the number that the policy's
-- capacity was found equal to.
unfoldable pub check_cgroup_peak : Fields → Fields → Fields → ℕ → Result (Unit {0})
unfolding require positive_integer expected_cgroup_peak
check_cgroup_peak policy cgroup_peak memory_peak capacity = do
  require (is_true (get "available" cgroup_peak)) "cgroup peak is not marked available"
  require (eq_json (get "source" cgroup_peak) (get "usage_source" policy))
      "cgroup peak source does not match memory policy"
  require (eq_json (get "scope" cgroup_peak) (get "usage_scope" policy))
      "cgroup peak scope does not match memory policy"
  require (eq_json (get "usage_trustworthy" cgroup_peak) (get "usage_trustworthy" policy))
      "cgroup peak trust policy does not match memory policy"
  peak_start ←
      need "no positive measured cgroup peak" (positive_integer (get "start_bytes" cgroup_peak))
  peak_end ←
      need "no positive measured cgroup peak" (positive_integer (get "end_bytes" cgroup_peak))
  require (leb peak_start peak_end) "cgroup peak decreased during build"
  require (is_true (get "monotonic" cgroup_peak))
      "cgroup peak monotonic policy is missing or inconsistent"
  require (leb peak_start capacity && leb peak_end capacity)
      "cgroup peak exceeds selected memory capacity"
  require (is_true (get "within_capacity" cgroup_peak))
      "cgroup peak capacity policy is missing or inconsistent"
  require (eq_json (obj memory_peak) (obj (expected_cgroup_peak policy peak_start peak_end)))
      "cgroup memory_peak does not match the measured cgroup evidence"

unfoldable pub unavailable_cgroup_peak : Fields
unavailable_cgroup_peak = field "available" (bool false) (
    field "end_bytes" null (
      field "monotonic" null (
        field "scope" (str "unavailable") (
          field "source" (str "") (
            field "start_bytes" null
              (field "usage_trustworthy" (bool false) (field "within_capacity" null end)))))))

abbrev rss_fields : List String
rss_fields =
    "available" ∷ "build_exit_status" ∷ "child_returncode" ∷ "checkpoint_interval_ms"
    ∷ "command_sha256" ∷ "complete" ∷ "covers_other_pod_processes" ∷ "duration_ms" ∷ "end_bytes"
    ∷ "finished_monotonic_ns" ∷ "forced_kill" ∷ "forwarded_signal" ∷ "includes_file_cache"
    ∷ "kernel_enforced" ∷ "leader_observed" ∷ "leader_pid" ∷ "maximum_process_count" ∷ "method"
    ∷ "mode" ∷ "monitor_error" ∷ "observed_compiler_executable" ∷ "observed_compiler_executables"
    ∷ "peak_bytes" ∷ "process_group_id" ∷ "sample_count" ∷ "sample_interval_ms"
    ∷ "sampled_peak_plus_reserve_within_assignment" ∷ "scope" ∷ "shared_pages_may_be_double_counted"
    ∷ "source" ∷ "start_bytes" ∷ "started_monotonic_ns" ∷ "termination_grace_seconds"
    ∷ "whole_pod_enforced" ∷ []

-- `set(memory_peak) == expected_memory_peak_fields`
unfoldable pub has_rss_fields : Fields → Bool
has_rss_fields peak =
    all (λ k. contains k rss_fields) (keys peak) && all (λ k. contains k (keys peak)) rss_fields

abbrev pub rss_policy : Fields
rss_policy = field "available" (bool true) (
    field "build_exit_status" (int (pos 0)) (
      field "child_returncode" (int (pos 0)) (
        field "complete" (bool true) (
          field "covers_other_pod_processes" (bool false) (
            field "forced_kill" (bool false) (
              field "forwarded_signal" null (
                field "includes_file_cache" (bool false) (
                  field "kernel_enforced" (bool false) (
                    field "leader_observed" (bool true) (
                      field "method" (str "proc-process-group-rss-sum") (
                        field "mode" (str "process-group-rss") (
                          field "monitor_error" null (
                            field "observed_compiler_executable" (bool true) (
                              field "sampled_peak_plus_reserve_within_assignment" (bool true) (
                                field "scope" (str "build-process-group") (
                                  field "shared_pages_may_be_double_counted" (bool true) (
                                    field "source" (str "/proc/*/statm")
                                      (field "whole_pod_enforced" (bool false) end))))))))))))))))))

-- `value is expected` for a Boolean or None, else `value == expected`
unfoldable pub is_expected : Json → Json → Bool
is_expected value (bool true) = is_true value
is_expected value (bool false) = is_false value
is_expected value null = is_null value
is_expected value expected = eq_json value expected

unfoldable pub check_expected : Fields → Fields → Result (Unit {0})
unfolding require is_expected
check_expected peak end = ok tt
check_expected peak (field k expected rest) = do
  require (is_expected (get k peak) expected) "RSS memory_peak has an invalid field"
  check_expected peak rest
