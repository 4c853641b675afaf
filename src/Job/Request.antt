-- ===== src/Job/Request.antt =====
-- `PodRequest` of tools/runpod_job.py and its `validate`.
pub mod Valid
use runpod_sageattention.Base.{
  ℕ, String, Bool, true, false, not, ◌&&◌, ◌||◌, Option, none, some, List, get_or, is_nil, any,
  if◌then◌else◌,
}
use runpod_sageattention.Base.Int.{ℤ, pos, ltb_ℤ}
use runpod_sageattention.Base.Text.{codes, eq_codes, upper, is_blank}
use runpod_sageattention.Job.Failure.{Result, ok, refuse_if, ◌>>=◌, ◌>>◌}

pub record PodRequest : Type 0 where
  pub image : String
  pub name : String
  pub public_key : String
  pub compute_type : String
  pub gpu_id : Option String
  pub cloud_type : String
  pub container_disk_gb : ℤ
  pub min_cuda_version : Option String
  pub gpu_workload : String
  pub gpu_min_vcpu_count : ℤ
  pub gpu_min_memory_gb : ℤ
  pub registry_auth_id : Option String
  pub data_center_ids : Option String
  pub cpu_flavor_ids : List String
  pub cpu_vcpu_count : ℤ
  pub cpu_min_memory_gb : ℤ

-- `text.upper() == word`
unfoldable pub is_upper : String → String → Bool
unfolding upper
is_upper text word = eq_codes (upper text) (codes word)

unfoldable pub is_cpu : PodRequest → Bool
is_cpu r = is_upper r.compute_type "CPU"

unfoldable pub is_gpu : PodRequest → Bool
is_gpu r = is_upper r.compute_type "GPU"

unfoldable pub is_gpu_build : PodRequest → Bool
is_gpu_build r = is_gpu r && is_upper r.gpu_workload "BUILD"

-- The checks that a CPU Pod adds.
unfoldable pub validate_cpu : PodRequest → Result (Unit {0})
validate_cpu r = do
  refuse_if (not (is_upper r.gpu_workload "VALIDATION")) "gpu_workload applies only to GPU Pods"
  refuse_if (is_nil r.cpu_flavor_ids || any is_blank r.cpu_flavor_ids)
      "at least one exact CPU flavor id is required"
  refuse_if (ltb_ℤ r.cpu_vcpu_count (pos 4)) "CPU build Pods require at least 4 vCPUs"
  refuse_if (ltb_ℤ r.cpu_min_memory_gb (pos 32)) "CPU build Pods require at least 32 GB RAM"
  refuse_if (ltb_ℤ r.container_disk_gb (pos 80))
      "CPU build Pods require at least 80 GB container disk"

-- The checks that a GPU Pod adds.
unfoldable pub validate_gpu : PodRequest → Result (Unit {0})
validate_gpu r = do
  refuse_if (not (is_upper r.gpu_workload "VALIDATION") && not (is_upper r.gpu_workload "BUILD"))
      "gpu_workload must be VALIDATION or BUILD"
  if is_upper r.gpu_workload "BUILD"
      then (do
        refuse_if (ltb_ℤ r.gpu_min_vcpu_count (pos 4)) "GPU build Pods require at least 4 vCPUs"
        refuse_if (ltb_ℤ r.gpu_min_memory_gb (pos 32))
            "GPU build Pods require at least 32 GB system RAM"
        refuse_if (ltb_ℤ r.container_disk_gb (pos 80))
            "GPU build Pods require at least 80 GB container disk")
      else refuse_if (ltb_ℤ r.container_disk_gb (pos 10))
          "GPU validation Pod container_disk_gb must be at least 10"

-- `PodRequest.validate`
unfoldable pub validate : PodRequest → Result (Unit {0})
unfolding validate_cpu validate_gpu
validate r = do
  refuse_if (is_blank r.image) "image is required"
  refuse_if (is_blank r.name) "Pod name is required"
  refuse_if (is_blank r.public_key) "PUBLIC_KEY must not be empty"
  refuse_if (not (is_cpu r) && not (is_gpu r)) "compute_type must be CPU or GPU"
  refuse_if (is_gpu r && is_blank (get_or r.gpu_id "")) "an exact gpu_id is required for GPU Pods"
  if is_cpu r then validate_cpu r else validate_gpu r
