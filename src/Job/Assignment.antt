-- ===== src/Job/Assignment.antt =====
-- The check of a created Pod against its request: `verify_pod_assignment` and the readers of the
-- REST payload that it uses, in tools/runpod_job.py.
pub mod Numbers
pub mod Bytes
pub mod Sound
use runpod_sageattention.Base.{
  ℕ, String, Bool, true, false, not, ◌&&◌, ◌||◌, Option, none, some, List, [], ◌∷◌, ◌++◌, str_eq,
  any, get_or, is_nil, if◌then◌else◌,
}
use runpod_sageattention.Base.Int.{ℤ, pos, ltb_ℤ, eqb_ℤ}
use runpod_sageattention.Json.{Json, Fields, str, get, as_fields, or_else, is_str}
use runpod_sageattention.Job.Failure.{
  Failure, job_error, gpu_placement, Result, ok, err, raise_if, ◌>>=◌, ◌>>◌,
}
use runpod_sageattention.Job.Request.{PodRequest, is_gpu, is_gpu_build}
use runpod_sageattention.Job.Spec.{contains, is_gpu_id}
use Numbers.{Decimal, is_below, integer, memory_bytes}

pub record VerifiedBuildAssignment : Type 0 where
  pub vcpu_count : ℤ
  pub assigned_memory_bytes : ℕ

-- `_assignment_payload`
unfoldable pub assignment_payload : Fields → Fields
assignment_payload details = get_or (as_fields (get "pod" details)) details

-- `add` inside `_gpu_type_ids`
unfoldable pub add_id : Json → List String → List String
add_id (str s) found =
    if not (str_eq s "") && not (contains s found) then found ++ (s ∷ []) else found
add_id _ found = found

abbrev field_of : String → Option Fields → Json
field_of k none = Json.null
field_of k (some fs) = get k fs

-- `value.get(outer)` if that is a mapping
unfoldable pub mapping : String → Option Fields → Option Fields
mapping k none = none
mapping k (some fs) = as_fields (get k fs)

-- `_gpu_type_ids`
unfoldable pub gpu_type_ids : Fields → List String
unfolding add_id mapping
gpu_type_ids details =
    let machine = mapping "machine" (some details) in
    add_id (field_of "id" (mapping "gpuType" machine)) (
      add_id (field_of "gpuTypeId" machine) (
        add_id (field_of "id" (mapping "gpu" (some details)))
          (add_id (get "gpuTypeId" details) [])))

-- `value is None or value < bound`
abbrev pub is_short : Option ℤ → ℤ → Bool
is_short none bound = true
is_short (some n) bound = ltb_ℤ n bound

abbrev pub is_short_memory : Option (Decimal × ℕ) → ℤ → Bool
is_short_memory none bound = true
is_short_memory (some (gb, bytes)) bound = is_below gb bound

-- `value != 0`
abbrev pub is_nonzero : Option ℤ → Bool
is_nonzero none = true
is_nonzero (some n) = not (eqb_ℤ n (pos 0))

abbrev pub assignment : Option ℤ → Option (Decimal × ℕ) → Option VerifiedBuildAssignment
assignment (some vcpus) (some (gb, bytes)) =
    some (record { vcpu_count = vcpus; assigned_memory_bytes = bytes })
assignment _ _ = none

-- The resource checks of a build Pod, with the exception that a shortfall raises.
unfoldable pub verify_resources :
    (String → Failure) → ℤ → ℤ → ℤ → Fields → Result (Option VerifiedBuildAssignment)
verify_resources refusal min_vcpus min_memory_gb min_disk_gb details = do
  raise_if (is_short (integer details "vcpuCount") min_vcpus) (refusal "CPU count mismatch")
  raise_if (is_short_memory (memory_bytes details "memoryInGb") min_memory_gb)
      (refusal "memory mismatch")
  raise_if (is_short (integer details "containerDiskInGb") min_disk_gb)
      (refusal "container disk mismatch")
  raise_if (is_nonzero (integer details "volumeInGb")) (refusal "unexpected paid Pod volume")
  ok (assignment (integer details "vcpuCount") (memory_bytes details "memoryInGb"))

-- The GPU branch of `verify_pod_assignment`.
unfoldable pub verify_gpu : PodRequest → Fields → Result (Option VerifiedBuildAssignment)
verify_gpu request details = do
  raise_if
      (is_nil (gpu_type_ids details)
        || any (λ g. not (is_gpu_id g request.gpu_id)) (gpu_type_ids details))
      (gpu_placement "GPU type mismatch")
  if is_gpu_build request
      then verify_resources gpu_placement request.gpu_min_vcpu_count request.gpu_min_memory_gb
          request.container_disk_gb details
      else ok none

-- `flavor not in request.cpu_flavor_ids`
unfoldable pub is_flavor : Json → List String → Bool
is_flavor flavor flavors = any (is_str flavor) flavors

-- The CPU branch of `verify_pod_assignment`.
unfoldable pub verify_cpu : PodRequest → Fields → Result (Option VerifiedBuildAssignment)
verify_cpu request details = do
  raise_if (not (is_flavor (get "cpuFlavorId" details) request.cpu_flavor_ids))
      (job_error "CPU flavor mismatch")
  verify_resources job_error request.cpu_vcpu_count request.cpu_min_memory_gb
      request.container_disk_gb details

-- `verify_pod_assignment`, from the payload that `assignment_details` returned
unfoldable pub verify_assignment : PodRequest → Fields → Result (Option VerifiedBuildAssignment)
verify_assignment request payload =
    let details = assignment_payload payload in
    do
      raise_if
          (not (is_str (or_else (get "imageName" details) (get "image" details)) request.image))
          (job_error "Pod image mismatch")
      if is_gpu request then verify_gpu request details else verify_cpu request details
