-- ===== src/Job/Request/Valid.antt =====
-- What `PodRequest.validate` accepts, written as a predicate, and that it accepts exactly that.
use runpod_sageattention.Base.{
  ◌≡◌, sym, ap, ◌∙◌, ◌↔◌, ◌⊎◌, inl, inr, ℕ, String, true, false, [], ◌∷◌, arith, get_or, is_nil,
  any, Bool-cases,
}
use runpod_sageattention.Base.Int.{pos, ◌≤ℤ◌}
use runpod_sageattention.Base.Text.{Codes, codes, eq_of_eq_codes, is_blank}
use runpod_sageattention.Job.Failure.{ok}
use runpod_sageattention.Job.Request.{PodRequest, is_upper, is_cpu, is_gpu, is_gpu_build, validate}

-- A CPU Pod: no GPU workload, named flavors, and the minimal build resources.
pub record IsCpuRequest (r : PodRequest) : Type 0 where
  pub mode : is_cpu r ≡ true
  pub workload : is_upper r.gpu_workload "VALIDATION" ≡ true
  pub some_flavor : is_nil r.cpu_flavor_ids ≡ false
  pub named_flavors : any is_blank r.cpu_flavor_ids ≡ false
  pub vcpus : pos 4 ≤ℤ r.cpu_vcpu_count
  pub memory : pos 32 ≤ℤ r.cpu_min_memory_gb
  pub disk : pos 80 ≤ℤ r.container_disk_gb

-- A GPU Pod that compiles.
pub record IsGpuBuildRequest (r : PodRequest) : Type 0 where
  pub mode : is_gpu_build r ≡ true
  pub gpu : is_blank (get_or r.gpu_id "") ≡ false
  pub vcpus : pos 4 ≤ℤ r.gpu_min_vcpu_count
  pub memory : pos 32 ≤ℤ r.gpu_min_memory_gb
  pub disk : pos 80 ≤ℤ r.container_disk_gb

-- A GPU Pod that validates a wheel.
pub record IsGpuValidationRequest (r : PodRequest) : Type 0 where
  pub mode : is_gpu r ≡ true
  pub workload : is_upper r.gpu_workload "VALIDATION" ≡ true
  pub gpu : is_blank (get_or r.gpu_id "") ≡ false
  pub disk : pos 10 ≤ℤ r.container_disk_gb

pub record IsNamed (r : PodRequest) : Type 0 where
  pub image : is_blank r.image ≡ false
  pub name : is_blank r.name ≡ false
  pub public_key : is_blank r.public_key ≡ false

abbrev pub IsValid : PodRequest → Type 0
IsValid r = IsNamed r × (IsCpuRequest r ⊎ (IsGpuBuildRequest r ⊎ IsGpuValidationRequest r))

abbrev head : Codes → ℕ
head [] = 0
head (c ∷ s) = c

-- Two words that one text spells in upper case are the same word.
is_upper_same :
    (text v w : String) → is_upper text v ≡ true → is_upper text w ≡ true → codes v ≡ codes w
unfolding is_upper
is_upper_same text v w hv hw = sym (eq_of_eq_codes _ _ hv) ∙ eq_of_eq_codes _ _ hw

cpu_is_not_gpu : (r : PodRequest) → is_cpu r ≡ true → is_gpu r ≡ false
unfolding is_cpu is_gpu
cpu_is_not_gpu r h = elim (Bool-cases (is_upper r.compute_type "GPU")) [
  | inl g ↦ absurd (omega (arith, ap head (is_upper_same r.compute_type "CPU" "GPU" h g)))
  | inr g ↦ g
]

validation_is_not_build :
    (text : String) → is_upper text "VALIDATION" ≡ true → is_upper text "BUILD" ≡ false
validation_is_not_build text h = elim (Bool-cases (is_upper text "BUILD")) [
  | inl g ↦ absurd (omega (arith, ap head (is_upper_same text "VALIDATION" "BUILD" h g)))
  | inr g ↦ g
]

validate_sound : (r : PodRequest) → validate r ≡ ok tt → IsValid r
unfolding validate is_gpu_build
validate_sound r h = ground arith

validate_complete : (r : PodRequest) → IsValid r → validate r ≡ ok tt
unfolding validate is_gpu_build
validate_complete r (named, inl c) = ground (arith, cpu_is_not_gpu r)
validate_complete r (named, inr (inl b)) = ground (arith, cpu_is_not_gpu r)
validate_complete r (named, inr (inr v)) =
    ground (arith, cpu_is_not_gpu r, validation_is_not_build r.gpu_workload)

-- `PodRequest.validate` returns exactly for a named request that is a CPU Pod with the minimal
-- build resources and no GPU workload, a GPU build Pod with the minimal build resources, or a GPU
-- validation Pod with a GPU id and 10 GB of disk.
pub validate-IsValid : (r : PodRequest) → (validate r ≡ ok tt) ↔ IsValid r
validate-IsValid r = (validate_sound r, validate_complete r)
