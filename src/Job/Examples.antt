-- ===== src/Job/Examples.antt =====
-- A GPU build job with two candidates, where the first Pod has the wrong GPU.
use runpod_sageattention.Base.{
  ◌*◌, ◌^◌, ◌≤◌, ◌≡◌, ◌↔◌, refl, str_eq, true, false, none, some, [], ◌∷◌,
}
use runpod_sageattention.Base.Int.{pos, negsuc}
use runpod_sageattention.Json.{Fields, str, int, float, end, field, get, or_else}
use runpod_sageattention.Job.Failure.{ok, err, gpu_placement}
use runpod_sageattention.Job.Request
use runpod_sageattention.Job.Request.{PodRequest, is_gpu, is_gpu_build, is_upper}
use runpod_sageattention.Job.Request.Valid.{IsValid, validate-IsValid}
use runpod_sageattention.Job.Spec
use runpod_sageattention.Job.Spec.{JobSpec, LocalFiles, contains, is_gpu_id}
use runpod_sageattention.Job.Spec.Valid.{IsAcceptable, validate-IsAcceptable}
use runpod_sageattention.Job.Assignment.{
  VerifiedBuildAssignment, verify_assignment, verify_gpu, verify_resources, gpu_type_ids,
  assignment_payload,
}
use runpod_sageattention.Job.Assignment.Numbers.{integer, is_below, memory_bytes}
use runpod_sageattention.Job.Assignment.Bytes.{memory_bytes-enough}
use runpod_sageattention.Job.Assignment.Sound.{IsBuildPod, verify_assignment_iff}
use runpod_sageattention.Job.Deadline.{left, timeout}
use runpod_sageattention.Job.Deadline.Bounds.{IsGranted, timeout-IsGranted}
use runpod_sageattention.Job.Effects.{start, Services}
use runpod_sageattention.Job.Leaks.{NamesPods}
use runpod_sageattention.Job.Leaks.Job.{Deletes, run_job-Deletes}
use runpod_sageattention.Job.Run.{run_job}

abbrev build_request : PodRequest
build_request = record {
  image = "runpod/pytorch:cuda12";
  name = "sage-build";
  public_key = "ssh-ed25519 AAAA";
  compute_type = "gpu";
  gpu_id = some "NVIDIA A40";
  cloud_type = "SECURE";
  container_disk_gb = pos 80;
  min_cuda_version = none;
  gpu_workload = "build";
  gpu_min_vcpu_count = pos 8;
  gpu_min_memory_gb = pos 32;
  registry_auth_id = none;
  data_center_ids = none;
  cpu_flavor_ids = [];
  cpu_vcpu_count = pos 8;
  cpu_min_memory_gb = pos 32;
}

abbrev build_spec : JobSpec
build_spec = record {
  pod = build_request;
  repo_root = "/repo";
  ssh_private_key = "/key";
  remote_dir = "/work/sage";
  commands = "make wheel" ∷ [];
  artifact_paths = "dist/a.whl" ∷ [];
  artifact_output = "/out";
  gpu_id_candidates = "NVIDIA A40" ∷ "NVIDIA L40" ∷ [];
  hard_timeout_seconds = pos 3600;
  terminate_grace_seconds = pos 60;
  poll_millis = 5000;
  allow_paid_pod = true;
}

abbrev example_local : LocalFiles
example_local = record {
  is_dir = λ path. str_eq path "/repo";
  is_file = λ path. str_eq path "/key";
}

-- What the REST API says of a Pod with an L40.
abbrev example_payload : Fields
example_payload = field "imageName" (str "runpod/pytorch:cuda12") (
    field "gpuTypeId" (str "NVIDIA L40") (
      field "vcpuCount" (int (pos 16)) (
        field "memoryInGb" (float "62.5")
          (field "containerDiskInGb" (int (pos 80)) (field "volumeInGb" (int (pos 0)) end)))))

abbrev example_build : VerifiedBuildAssignment
example_build = record { vcpu_count = pos 16; assigned_memory_bytes = 62500000000 }

abbrev l40_request : PodRequest
l40_request = record build_request { gpu_id = some "NVIDIA L40" }

-- Every Pod has an L40, and every call succeeds.
abbrev example_services : Services
example_services = record {
  now = λ h. 0;
  check_auth = λ millis h. ok tt;
  create_pod = λ request seconds millis h. ok "pod";
  wait_for_ssh = λ pod h. ok (record { host = "10.0.0.1"; port = pos 22 });
  assignment_details = λ pod millis h. ok example_payload;
  terminate_pod = λ pod millis h. ok tt;
  upload_repo = λ endpoint h. ok tt;
  run_script = λ endpoint line h. ok tt;
  download_artifacts = λ endpoint paths h. ok tt;
}

example_named : NamesPods example_services
example_named request seconds millis h e = cc

run_job-Deletes_example : Deletes (run_job example_services example_local build_spec)
run_job-Deletes_example = run_job-Deletes example_services example_local build_spec example_named

validate-IsValid_example : (Request.validate build_request ≡ ok tt) ↔ IsValid build_request
validate-IsValid_example = validate-IsValid build_request

validate-IsAcceptable_example :
    (Spec.validate example_local build_spec ≡ ok tt) ↔ IsAcceptable example_local build_spec
validate-IsAcceptable_example = validate-IsAcceptable example_local build_spec

verify_assignment_iff_example :
    (verify_assignment l40_request example_payload ≡ ok (some example_build))
    ↔ IsBuildPod l40_request example_payload example_build
unfolding assignment_payload get
verify_assignment_iff_example = verify_assignment_iff l40_request example_payload example_build

-- The L40 is accepted for the second candidate and refused for the first.
accepts_l40 :
    (verify_assignment l40_request example_payload ≡ ok (some example_build))
    × (verify_assignment build_request example_payload ≡ err (gpu_placement "GPU type mismatch"))
unfolding verify_assignment or_else get assignment_payload is_gpu is_upper verify_gpu gpu_type_ids
    contains is_gpu_id is_gpu_build verify_resources integer memory_bytes is_below
accepts_l40 = (refl, refl)

example_decimal :
    memory_bytes example_payload "memoryInGb"
    ≡ some (record { negative = false; digits = 625; exponent = negsuc 0 }, 62500000000)
unfolding memory_bytes get
example_decimal = refl

memory_bytes-enough_example : 62 * 10 ^ 9 ≤ 62500000000
unfolding is_below
memory_bytes-enough_example =
    memory_bytes-enough example_payload "memoryInGb"
      (record { negative = false; digits = 625; exponent = negsuc 0 }) 62500000000 62
      example_decimal refl

-- 7 seconds are left of the budget, and the cap is 5 seconds.
timeout-IsGranted_example :
    IsGranted 7000 5000 (timeout example_services 7000 5000 start).0
    × ((timeout example_services 7000 5000 start).1 ≡ start)
unfolding left
timeout-IsGranted_example = timeout-IsGranted example_services 7000 5000 start
