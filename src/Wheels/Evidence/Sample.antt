-- ===== src/Wheels/Evidence/Sample.antt =====
-- `validate_resource_evidence` of scripts/validate-wheel.py: the sampled peak of the build's
-- process group.
use runpod_sageattention.Base.{
  ℕ, ◌+◌, ◌-◌, ◌/◌, max, String, str_eq, Bool, false, not, ◌&&◌, ◌||◌, Option, none, some, List, [],
  ◌∷◌, ◌==◌, ltb, leb, map, any, if◌then◌else◌,
}
use runpod_sageattention.Base.Int.{pos}
use runpod_sageattention.Base.Text.{Codes, codes, eq_codes, lower_code, is_infix, is_prefix}
use mathlib.Core.List.{reverse}
use runpod_sageattention.Base.Sorting.{by_key, sort}
use runpod_sageattention.Json.{Json, Fields, int, str, obj, get}
use runpod_sageattention.Json.Equality.{eq_json, is_number}
use runpod_sageattention.Job.Failure.{Result, ok, ◌>>=◌, ◌>>◌}
use runpod_sageattention.Wheels.Asset.{nonempty_list, path_name, text_order, eq_texts}
use runpod_sageattention.Wheels.Select.{is_digest, distinct}
use runpod_sageattention.Wheels.Evidence.Snapshot.{need, require, positive_integer}
use runpod_sageattention.Wheels.Evidence.Peak.{
  unavailable_cgroup_peak, has_rss_fields, rss_policy, check_expected,
}

abbrev equals : Option ℕ → ℕ → Bool
equals none expected = false
equals (some n) expected = n == expected

-- a positive integer that is the expected one
unfoldable pub is_exactly : Json → ℕ → Bool
unfolding positive_integer
is_exactly value expected = equals (positive_integer value) expected

abbrev is_zero : Json → Bool
is_zero (int n) = is_number (int n) (pos 0)
is_zero _ = false

unfoldable pub compiler_text : Codes → Bool
compiler_text lowered =
    any (eq_codes lowered) (codes "c++" ∷ codes "cc1plus" ∷ codes "nvcc" ∷ codes "ptxas" ∷ [])
    || (is_infix (codes "nvcc") lowered
        || (is_infix (codes "ptxas") lowered
            || (is_infix (codes "g++") lowered
                || is_prefix (reverse (codes "-c++")) (reverse lowered))))

-- `_compiler_executable_name`, with the name
unfoldable pub compiler_executable_name : Json → Option String
unfolding path_name compiler_text lower_code
compiler_executable_name (str s) =
    if not (str_eq s "")
      && (eq_codes (path_name s) (codes s) && compiler_text (map lower_code (codes s)))
    then some s
    else none
compiler_executable_name _ = none

abbrev add_name : Option String → Option (List String) → Option (List String)
add_name (some s) (some ss) = some (s ∷ ss)
add_name _ _ = none

unfoldable pub compiler_names : List Json → Option (List String)
unfolding compiler_executable_name
compiler_names [] = some []
compiler_names (v ∷ vs) = add_name (compiler_executable_name v) (compiler_names vs)

-- `names == sorted(set(names))`
unfoldable pub is_sorted_set : List String → Bool
unfolding sort distinct eq_texts
is_sorted_set names = eq_texts names (sort (by_key codes text_order.strict).less (distinct names))

abbrev names_of : Option (List Json) → Option (List String)
unfolding compiler_names
names_of none = none
names_of (some vs) = compiler_names vs

abbrev is_sorted_names : Option (List String) → Bool
is_sorted_names none = false
is_sorted_names (some names) = is_sorted_set names

-- the compilers that were seen: a list of names, ascending, none of them twice
unfoldable pub check_compilers : Json → Result (Unit {0})
unfolding require is_sorted_set compiler_names
check_compilers value =
    require (is_sorted_names (names_of (nonempty_list value)))
      "RSS memory_peak has invalid compiler executable evidence"

-- The numbers of a sample.
pub record Sample : Type 0 where
  pub start_bytes : ℕ
  pub end_bytes : ℕ
  pub peak_bytes : ℕ

unfoldable pub check_sizes : Fields → Result Sample
unfolding positive_integer require
check_sizes peak = do
  start_bytes ←
      need "no positive sampled endpoints and peak" (positive_integer (get "start_bytes" peak))
  end_bytes ←
      need "no positive sampled endpoints and peak" (positive_integer (get "end_bytes" peak))
  peak_bytes ←
      need "no positive sampled endpoints and peak" (positive_integer (get "peak_bytes" peak))
  require (leb (max start_bytes end_bytes) peak_bytes)
      "RSS memory_peak is lower than a sampled endpoint"
  ok (record { start_bytes = start_bytes; end_bytes = end_bytes; peak_bytes = peak_bytes })

unfoldable pub check_counts : Fields → Result (Unit {0})
unfolding positive_integer require
check_counts peak = do
  samples ← need "RSS memory_peak has too few samples" (positive_integer (get "sample_count" peak))
  require (leb 2 samples) "RSS memory_peak has too few samples"
  processes ←
      need "RSS memory_peak did not observe a compiler"
        (positive_integer (get "maximum_process_count" peak))
  require (leb 2 processes) "RSS memory_peak did not observe a compiler"
  group ←
      need "not bound to its process-group leader" (positive_integer (get "process_group_id" peak))
  leader ← need "not bound to its process-group leader" (positive_integer (get "leader_pid" peak))
  require (group == leader) "not bound to its process-group leader"

unfoldable pub check_times : Fields → Result (Unit {0})
unfolding positive_integer require
check_times peak = do
  started ←
      need "lifecycle timestamps are invalid" (positive_integer (get "started_monotonic_ns" peak))
  finished ←
      need "lifecycle timestamps are invalid" (positive_integer (get "finished_monotonic_ns" peak))
  require (ltb started finished) "lifecycle timestamps are invalid"
  duration ← need "duration does not match" (positive_integer (get "duration_ms" peak))
  require (duration == (finished - started) / 1000000) "duration does not match"

unfoldable pub check_constants : Fields → Result (Unit {0})
unfolding require is_exactly is_digest
check_constants peak = do
  require (is_exactly (get "sample_interval_ms" peak) 100)
      "RSS memory_peak has invalid sample_interval_ms"
  require (is_exactly (get "checkpoint_interval_ms" peak) 5000)
      "RSS memory_peak has invalid checkpoint_interval_ms"
  require (is_exactly (get "termination_grace_seconds" peak) 10)
      "RSS memory_peak has invalid termination_grace_seconds"
  require (is_zero (get "child_returncode" peak)) "RSS memory_peak has invalid child_returncode"
  require (is_zero (get "build_exit_status" peak)) "RSS memory_peak has invalid build_exit_status"
  require (is_digest (get "command_sha256" peak)) "RSS memory_peak has invalid command_sha256"

-- The branch with the sampled memory of a process group.
unfoldable pub check_rss_peak : Fields → Fields → ℕ → ℕ → Result (Unit {0})
unfolding require unavailable_cgroup_peak has_rss_fields check_expected check_constants check_sizes
    check_counts check_compilers check_times
check_rss_peak cgroup_peak memory_peak reserve capacity = do
  require (eq_json (obj cgroup_peak) (obj unavailable_cgroup_peak))
      "RSS fallback must not claim cgroup peak evidence"
  require (has_rss_fields memory_peak) "RSS memory_peak fields are incomplete or unexpected"
  check_expected memory_peak rss_policy
  check_constants memory_peak
  sample ← check_sizes memory_peak
  check_counts memory_peak
  check_compilers (get "observed_compiler_executables" memory_peak)
  check_times memory_peak
  require (leb (sample.peak_bytes + reserve) capacity)
      "RSS peak plus reserve exceeds the verified assignment capacity"
