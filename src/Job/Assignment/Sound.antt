-- ===== src/Job/Assignment/Sound.antt =====
-- What an accepted assignment guarantees: the exact GPU, and resources no smaller than requested.
use mathlib.Core.Path.{subst}
use mathlib.Core.Option.{some-injective}
use runpod_sageattention.Base.{
  ℕ, ◌≡◌, refl, sym, ◌↔◌, inl, inr, true, false, not, eq_iff, Option, none, some, List, [], ◌∷◌,
  arith, All, any, is_nil, Bool-cases, String,
}
use runpod_sageattention.Base.Int.{ℤ, pos, ◌≤ℤ◌}
use runpod_sageattention.Json.{Fields, get, or_else, is_str}
use runpod_sageattention.Job.Failure.{ok, Failure, job_error, gpu_placement}
use runpod_sageattention.Job.Request.{PodRequest, is_gpu, is_gpu_build}
use runpod_sageattention.Job.Spec.{is_gpu_id}
use runpod_sageattention.Job.Assignment.{
  VerifiedBuildAssignment, is_short, is_short_memory, is_nonzero, assignment, assignment_payload,
  gpu_type_ids, is_flavor, verify_resources, verify_gpu, verify_cpu, verify_assignment,
}
use runpod_sageattention.Job.Assignment.Numbers.{Decimal, is_below, integer, memory_bytes}

-- The payload of a build Pod that has what the request asks for.
pub record HasResources (min_vcpus min_memory_gb min_disk_gb : ℤ) (details : Fields)
    (a : VerifiedBuildAssignment) : Type 0 where
  pub vcpus : integer details "vcpuCount" ≡ some a.vcpu_count
  pub enough_vcpus : min_vcpus ≤ℤ a.vcpu_count
  pub memory :
      (gb : Decimal) × (memory_bytes details "memoryInGb" ≡ some (gb, a.assigned_memory_bytes))
      × (is_below gb min_memory_gb ≡ false)
  pub disk : (d : ℤ) × (integer details "containerDiskInGb" ≡ some d) × (min_disk_gb ≤ℤ d)
  pub no_volume : integer details "volumeInGb" ≡ some (pos 0)

not_short :
    (o : Option ℤ) (bound : ℤ) → is_short o bound ≡ false → (n : ℤ) × (o ≡ some n) × (bound ≤ℤ n)
not_short none bound h = cc
not_short (some n) bound h = (n, refl, ground arith)

not_short_memory :
    (o : Option (Decimal × ℕ)) (bound : ℤ)
    → is_short_memory o bound ≡ false
    → (gb : Decimal) × (bytes : ℕ) × (o ≡ some (gb, bytes)) × (is_below gb bound ≡ false)
not_short_memory none bound h = cc
not_short_memory (some (gb, bytes)) bound h = (gb, bytes, refl, h)

zero_volume : (o : Option ℤ) → is_nonzero o ≡ false → o ≡ some (pos 0)
zero_volume none h = cc
zero_volume (some n) h = ground arith

module _ (refusal : String → Failure) (v m d : ℤ) (details : Fields) where
  verify_resources_passed :
      {o : Option VerifiedBuildAssignment}
      → verify_resources refusal v m d details ≡ ok o
      → (is_short (integer details "vcpuCount") v ≡ false)
        × (is_short_memory (memory_bytes details "memoryInGb") m ≡ false)
        × (is_short (integer details "containerDiskInGb") d ≡ false)
        × (is_nonzero (integer details "volumeInGb") ≡ false)
        × (assignment (integer details "vcpuCount") (memory_bytes details "memoryInGb") ≡ o)
  unfolding verify_resources
  verify_resources_passed h = ground arith

  verify_resources_sound :
      (o : Option VerifiedBuildAssignment)
      → verify_resources refusal v m d details ≡ ok o
      → (a : VerifiedBuildAssignment) × (o ≡ some a) × HasResources v m d details a
  verify_resources_sound o h =
      let (p, q, r, z, e) = verify_resources_passed h in
      let (n, en, ln) = not_short (integer details "vcpuCount") v p in
      let (gb, bytes, em, lm) = not_short_memory (memory_bytes details "memoryInGb") m q in
      let a : VerifiedBuildAssignment = record { vcpu_count = n; assigned_memory_bytes = bytes } in
      (
        a,
        rw (en, em) at (sym e),
        record {
          vcpus = en;
          enough_vcpus = ln;
          memory = (gb, em, lm);
          disk = not_short (integer details "containerDiskInGb") d r;
          no_volume = zero_volume (integer details "volumeInGb") z;
        },
      )

  verify_resources_complete :
      (a : VerifiedBuildAssignment)
      → HasResources v m d details a
      → verify_resources refusal v m d details ≡ ok (some a)
  unfolding verify_resources
  verify_resources_complete a h =
      let (gb, em, lm) = h.memory in let (n, ed, ld) = h.disk in ground arith

  verify_resources_iff :
      (a : VerifiedBuildAssignment)
      → (verify_resources refusal v m d details ≡ ok (some a)) ↔ HasResources v m d details a
  verify_resources_iff a = (
    λ h.
        let (b, e, r) = verify_resources_sound (some a) h in
        subst (HasResources v m d details) (sym (some-injective a b e)) r,
    verify_resources_complete a,
  )

-- The image, and for a GPU Pod every GPU type that the payload names, are the requested ones.
pub record IsPlaced (r : PodRequest) (details : Fields) : Type 0 where
  pub image : is_str (or_else (get "imageName" details) (get "image" details)) r.image ≡ true
  pub some_gpu : is_gpu r ≡ true → is_nil (gpu_type_ids details) ≡ false
  pub same_gpu : is_gpu r ≡ true → All (λ g. r.gpu_id ≡ some g) (gpu_type_ids details)
  pub flavor : is_gpu r ≡ false → is_flavor (get "cpuFlavorId" details) r.cpu_flavor_ids ≡ true

All-same :
    (g : Option String) (ids : List String)
    → (any (λ i. not (is_gpu_id i g)) ids ≡ false) ↔ All (λ i. g ≡ some i) ids
unfolding is_gpu_id
All-same g [] = (λ h. tt, λ h. refl)
All-same none (i ∷ ids) = (λ h. cc, λ h. cc h.0)
All-same (some g) (i ∷ ids) = (
  λ h. (ground (arith, eq_iff i g), (All-same (some g) ids).0 (ground arith)),
  λ h. ground (arith, eq_iff i g, h.0, (All-same (some g) ids).1 h.1),
)

-- A build Pod as requested: placed, and with the resources of its mode.
pub record IsBuildPod (r : PodRequest) (details : Fields) (a : VerifiedBuildAssignment)
    : Type 0 where
  pub placed : IsPlaced r details
  pub gpu_build : is_gpu r ≡ true → is_gpu_build r ≡ true
  pub gpu_resources :
      is_gpu r ≡ true
      → HasResources r.gpu_min_vcpu_count r.gpu_min_memory_gb r.container_disk_gb details a
  pub cpu_resources :
      is_gpu r ≡ false
      → HasResources r.cpu_vcpu_count r.cpu_min_memory_gb r.container_disk_gb details a

module _ (r : PodRequest) (details : Fields) (a : VerifiedBuildAssignment) where
  verify_gpu_iff : (verify_gpu r details ≡ ok (some a)) ↔ (
      (is_nil (gpu_type_ids details) ≡ false)
      × All (λ g. r.gpu_id ≡ some g) (gpu_type_ids details)
      × (is_gpu_build r ≡ true)
      × HasResources r.gpu_min_vcpu_count r.gpu_min_memory_gb r.container_disk_gb details a)
  unfolding verify_gpu
  verify_gpu_iff =
      let resources =
        verify_resources_iff gpu_placement r.gpu_min_vcpu_count r.gpu_min_memory_gb
          r.container_disk_gb details a in
      (
        λ h. (
          ground arith,
          (All-same r.gpu_id (gpu_type_ids details)).0 (ground arith),
          ground arith,
          resources.0 (ground arith),
        ),
        λ h. ground (arith, (All-same r.gpu_id (gpu_type_ids details)).1 h.1, resources.1 h.3),
      )

  verify_cpu_iff : (verify_cpu r details ≡ ok (some a)) ↔ (
      (is_flavor (get "cpuFlavorId" details) r.cpu_flavor_ids ≡ true)
      × HasResources r.cpu_vcpu_count r.cpu_min_memory_gb r.container_disk_gb details a)
  unfolding verify_cpu
  verify_cpu_iff =
      let resources =
        verify_resources_iff job_error r.cpu_vcpu_count r.cpu_min_memory_gb r.container_disk_gb
          details a in
      (λ h. (ground arith, resources.0 (ground arith)), λ h. ground (arith, h.0, resources.1 h.1))

module _ (r : PodRequest) (payload : Fields) (a : VerifiedBuildAssignment) where
  abbrev details : Fields
  details = assignment_payload payload

  verify_assignment_sound :
      verify_assignment r payload ≡ ok (some a) → IsBuildPod r (assignment_payload payload) a
  unfolding verify_assignment
  verify_assignment_sound h = elim (Bool-cases (is_gpu r)) [
    | inl g ↦
        let (some_gpu, same_gpu, build, resources) =
          (verify_gpu_iff r details a).0 (ground arith) in
        record {
          placed = record {
            image = ground arith;
            some_gpu = λ _. some_gpu;
            same_gpu = λ _. same_gpu;
            flavor = λ n. cc;
          };
          gpu_build = λ _. build;
          gpu_resources = λ _. resources;
          cpu_resources = λ n. cc;
        }
    | inr c ↦
        let (flavor, resources) = (verify_cpu_iff r details a).0 (ground arith) in
        record {
          placed = record {
            image = ground arith;
            some_gpu = λ n. cc;
            same_gpu = λ n. cc;
            flavor = λ _. flavor;
          };
          gpu_build = λ n. cc;
          gpu_resources = λ n. cc;
          cpu_resources = λ _. resources;
        }
  ]

  verify_assignment_complete :
      IsBuildPod r (assignment_payload payload) a → verify_assignment r payload ≡ ok (some a)
  unfolding verify_assignment
  verify_assignment_complete h = elim (Bool-cases (is_gpu r)) [
    | inl g ↦ ground (
      arith,
      h.placed.image,
      (verify_gpu_iff r details a).1
          (h.placed.some_gpu g, h.placed.same_gpu g, h.gpu_build g, h.gpu_resources g),
    )
    | inr c ↦ ground (
      arith,
      h.placed.image,
      (verify_cpu_iff r details a).1 (h.placed.flavor c, h.cpu_resources c),
    )
  ]

  -- `verify_pod_assignment` returns a verified assignment exactly for a build Pod that has the
  -- requested image, whose GPU types are all the requested one (or whose CPU flavor is listed),
  -- with vCPUs, memory and disk no smaller than requested and no Pod volume, and the assignment
  -- is then the vCPUs and the memory bytes of the payload.
  pub verify_assignment_iff :
      (verify_assignment r payload ≡ ok (some a)) ↔ IsBuildPod r (assignment_payload payload) a
  verify_assignment_iff = (verify_assignment_sound, verify_assignment_complete)
