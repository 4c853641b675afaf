-- ===== src/Wheels/Evidence/Snapshot.antt =====
-- `validate_resource_evidence` of scripts/validate-wheel.py: the resource limits of the matrix and
-- the check of one resource snapshot.
pub mod Bounds
use runpod_sageattention.Base.{
  ℕ, zero, suc, ◌*◌, ◌^◌, String, ◌<>◌, str_eq, Bool, true, false, not, ◌&&◌, ◌||◌, Option, none,
  some, List, [], ◌∷◌, ◌==◌, leb, starts_with, if◌then◌else◌,
}
use runpod_sageattention.Base.Int.{ℤ, pos}
use runpod_sageattention.Base.Print.{show_ℕ}
use runpod_sageattention.Json.{
  Json, Items, Fields, null, bool, int, float, str, arr, obj, get, is_str,
}
use runpod_sageattention.Json.Equality.{is_number}
use runpod_sageattention.Job.Failure.{
  Result, ok, err, Failure, validation_error, other_error, raise_if, ◌>>=◌, ◌>>◌,
}
use runpod_sageattention.Job.Spec.{contains}

abbrev pub need : {A : Type 0} → String → Option A → Result A
need text none = err (validation_error text)
need text (some a) = ok a

-- `require(condition, text)`
unfoldable pub require : Bool → String → Result (Unit {0})
require condition text = raise_if (not condition) (validation_error text)

-- `_positive_integer(value)`, with the integer
unfoldable pub positive_integer : Json → Option ℕ
positive_integer (int (pos (suc n))) = some (suc n)
positive_integer _ = none

abbrev pub dict : Json → Option Fields
dict (obj fs) = some fs
dict _ = none

abbrev pub is_bool : Json → Bool
is_bool (bool b) = true
is_bool _ = false

-- `value is True` and `value is False`
abbrev pub is_true : Json → Bool
is_true (bool b) = b
is_true _ = false

abbrev pub is_false : Json → Bool
is_false (bool b) = not b
is_false _ = false

-- `value is None`
abbrev pub is_null : Json → Bool
is_null null = true
is_null _ = false

-- `value in {...}` of texts: a list or a dict has no hash
unfoldable pub text_in : List String → Json → Result Bool
unfolding contains
text_in texts (str s) = ok (contains s texts)
text_in texts (arr vs) = err (other_error "TypeError")
text_in texts (obj fs) = err (other_error "TypeError")
text_in texts _ = ok false

-- the minimum of the matrix, in CPUs and bytes, and its recommendation
pub record Limits : Type 0 where
  pub cpus : ℕ
  pub bytes : ℕ
  pub recommended : ℕ

unfoldable pub limits : Fields → Result Limits
unfolding positive_integer require
limits resources = do
  cpus ←
      need "matrix minimum CPU count is invalid" (positive_integer (get "minimum_cpus" resources))
  gib ←
      need "matrix minimum memory GiB is invalid"
        (positive_integer (get "minimum_memory_gib" resources))
  recommended ←
      need "matrix recommended memory GiB is invalid"
        (positive_integer (get "recommended_memory_gib" resources))
  require (leb gib recommended) "matrix recommended memory GiB is invalid"
  ok (record { cpus = cpus; bytes = gib * 1024 ^ 3; recommended = recommended * 1024 ^ 3 })

-- A snapshot with the numbers that were checked.
pub record Snapshot : Type 0 where
  pub memory : Fields
  pub cpu : Fields
  pub build : Fields
  pub cgroup : Fields
  pub assigned : ℕ
  pub capacity : ℕ
  pub effective : ℕ
  pub runpod : ℕ

abbrev one_or_two : Option ℕ → Option ℕ
one_or_two none = none
one_or_two (some n) = if (n == 1) || (n == 2) then some n else none

-- the cgroup version where it is 1 or 2
unfoldable pub known_version : Json → Option ℕ
unfolding positive_integer
known_version v = one_or_two (positive_integer v)

-- `source.startswith(f"cgroup-v{version}:")` for a known version
unfoldable pub is_cgroup_source : Option ℕ → Json → Bool
unfolding show_ℕ
is_cgroup_source (some n) (str s) = starts_with s ("cgroup-v" <> (show_ℕ n <> ":"))
is_cgroup_source _ _ = false

abbrev pub is_given : {A : Type 0} → Option A → Bool
is_given none = false
is_given (some a) = true

-- the capacity that the Pod's assignment gives
unfoldable pub is_assignment : Fields → ℕ → ℕ → Bool
is_assignment memory capacity assigned =
    (capacity == assigned) && is_false (get "capacity_is_hard_limit" memory)

-- the capacity that a cgroup gives
unfoldable pub is_cgroup_capacity : Fields → Fields → ℕ → Bool
unfolding known_version is_cgroup_source
is_cgroup_capacity memory cgroup capacity =
    is_cgroup_source (known_version (get "version" cgroup)) (get "capacity_source" memory)
    && (is_true (get "capacity_is_hard_limit" memory)
        && (is_true (get "limited" memory) && is_number (get "limit_bytes" memory) (pos capacity)))

unfoldable pub check_capacity : Fields → Fields → ℕ → ℕ → Result (Unit {0})
unfolding is_assignment is_cgroup_capacity require
check_capacity memory cgroup capacity assigned =
    if is_str (get "capacity_source" memory) "runpod-api-assignment"
    then require (is_assignment memory capacity assigned)
        "assignment capacity policy is inconsistent"
    else require (is_cgroup_capacity memory cgroup capacity)
        "cgroup capacity policy is inconsistent"

-- The branch of a snapshot with cgroup evidence.
unfoldable pub check_cgroup : Fields → Fields → Fields → Result (Unit {0})
unfolding known_version is_cgroup_source text_in require
check_cgroup memory build cgroup = do
  require (is_given (known_version (get "version" cgroup))) "no supported memory cgroup"
  require (is_cgroup_source (known_version (get "version" cgroup)) (get "usage_source" memory))
      "peak usage source is not a cgroup"
  known ←
      text_in ("cgroup-capacity" ∷ "pod-cgroup" ∷ "ambiguous-cgroup-root" ∷ [])
        (get "usage_scope" memory)
  require known "peak usage scope is unsupported"
  require (is_true (get "usage_peak_eligible" memory)) "not eligible for cgroup peak evidence"
  require
      (not (is_false (get "usage_trustworthy" memory))
        || (is_str (get "usage_scope" memory) "ambiguous-cgroup-root"
            && is_true (get "forced_single_job" build)))
      "untrusted usage is not safely constrained"

abbrev pub is_one : Json → Bool
is_one (int n) = is_number (int n) (pos 1)
is_one _ = false

-- The branch of a snapshot with the sampled memory of a process group.
unfoldable pub check_rss : Limits → Fields → Fields → Fields → ℕ → ℕ → Result (Unit {0})
unfolding known_version is_assignment require is_number
check_rss limits memory build cgroup capacity assigned = do
  require
      (is_str (get "capacity_source" memory) "runpod-api-assignment"
        && is_assignment memory capacity assigned)
      "RSS fallback requires the verified assignment capacity"
  require (leb limits.recommended capacity)
      "RSS fallback capacity is below the matrix recommendation"
  require (is_null (get "version" cgroup) || is_given (known_version (get "version" cgroup)))
      "RSS fallback cgroup metadata is malformed"
  require
      (is_null (get "usage_current_bytes" memory)
        && (is_str (get "usage_source" memory) ""
            && (is_str (get "usage_scope" memory) "unavailable"
                && (is_false (get "usage_peak_eligible" memory)
                    && is_false (get "usage_trustworthy" memory)))))
      "RSS fallback requires genuinely unavailable cgroup usage"
  require
      (is_true (get "forced_single_job" build)
        && (is_one (get "suggested_jobs" build) && is_one (get "max_jobs_cap" build)))
      "RSS fallback is not constrained to one build job"

abbrev pub is_nonempty_text : Json → Bool
is_nonempty_text (str s) = not (str_eq s "")
is_nonempty_text _ = false

-- the requirements of the evidence mode
unfoldable pub check_mode : Limits → Fields → Fields → Fields → ℕ → ℕ → Result (Unit {0})
unfolding check_cgroup check_rss
check_mode limits memory build cgroup capacity assigned =
    if is_str (get "peak_evidence_mode" memory) "cgroup"
    then check_cgroup memory build cgroup
    else check_rss limits memory build cgroup capacity assigned

abbrev pub evidence_modes : List String
evidence_modes = "cgroup" ∷ "process-group-rss" ∷ []

-- One round of the loop over "resource_start" and "resource_end".
unfoldable pub check_snapshot : Limits → Json → Result Snapshot
unfolding positive_integer require text_in check_capacity check_mode
check_snapshot limits value = do
  snapshot ← need "build evidence has no snapshot" (dict value)
  require (is_number (get "schema_version" snapshot) (pos 2)) "must use schema version 2"
  memory ← need "no memory snapshot" (dict (get "memory" snapshot))
  cpu ← need "no CPU snapshot" (dict (get "cpu" snapshot))
  build ← need "no build recommendation" (dict (get "build" snapshot))
  cgroup ← need "no cgroup snapshot" (dict (get "cgroup" snapshot))
  assigned ←
      need "lost the verified memory assignment"
        (positive_integer (get "assigned_capacity_bytes" memory))
  capacity ←
      need "memory capacity is missing or invalid" (positive_integer (get "capacity_bytes" memory))
  require (leb limits.bytes capacity) "memory capacity is below the matrix minimum"
  require (leb capacity assigned) "memory capacity exceeds the verified assignment"
  require (is_nonempty_text (get "capacity_source" memory)) "memory capacity source is missing"
  require (is_bool (get "capacity_is_hard_limit" memory)) "memory hard-limit policy is malformed"
  require (is_bool (get "usage_trustworthy" memory)) "usage trust policy is malformed"
  known ← text_in evidence_modes (get "peak_evidence_mode" memory)
  require known "memory peak evidence mode is unsupported"
  check_capacity memory cgroup capacity assigned
  effective ← need "effective CPU count is invalid" (positive_integer (get "effective_count" cpu))
  require (leb limits.cpus effective) "effective CPU count is below the matrix minimum"
  runpod ← need "lost the verified vCPU assignment" (positive_integer (get "runpod_count" cpu))
  require (leb limits.cpus runpod) "lost the verified vCPU assignment"
  require (leb effective runpod) "effective CPU exceeds the verified assignment"
  require (is_bool (get "forced_single_job" build)) "forced-single-job policy is malformed"
  check_mode limits memory build cgroup capacity assigned
  ok (record {
    memory = memory;
    cpu = cpu;
    build = build;
    cgroup = cgroup;
    assigned = assigned;
    capacity = capacity;
    effective = effective;
    runpod = runpod;
  })
