-- ===== src/Wheels/Evidence/Examples.antt =====
-- Evidence of a build in a cgroup of version 2, with concrete values.
use runpod_sageattention.Resources.Group.{Details}
use runpod_sageattention.Resources.Group.Samples.{no_samples, sample_all}
use runpod_sageattention.Wheels.Evidence.Sample.{check_sizes}
use runpod_sageattention.Wheels.Evidence.Supervised.{check_sizes-sample_all}
use runpod_sageattention.Base.{◌∙◌, some, List, [], ◌∷◌, ◌≡◌, refl, true, false}
use runpod_sageattention.Base.Int.{pos}
use runpod_sageattention.Json.{Json, Fields, bool, int, str, obj, end, field, get}
use runpod_sageattention.Json.Equality.{eq_json}
use runpod_sageattention.Job.Failure.{ok}
use runpod_sageattention.Wheels.Evidence.Snapshot.{Snapshot}
use runpod_sageattention.Wheels.Evidence.Peak.{expected_cgroup_peak}
use runpod_sageattention.Wheels.Evidence.Validate.{Bound, bind_evidence, validate_resource_evidence}
use runpod_sageattention.Wheels.Evidence.Validate.Sound.{
  IsBound, HasPeak, validate_resource_evidence-IsBound,
}

abbrev resources : Fields
resources =
    field "minimum_cpus" (int (pos 2))
      (field "minimum_memory_gib" (int (pos 1)) (field "recommended_memory_gib" (int (pos 2)) end))

abbrev memory : Fields
memory = field "assigned_capacity_bytes" (int (pos 4294967296)) (
    field "capacity_bytes" (int (pos 4294967296)) (
      field "capacity_source" (str "runpod-api-assignment") (
        field "capacity_is_hard_limit" (bool false) (
          field "usage_source" (str "cgroup-v2:memory.current") (
            field "usage_scope" (str "pod-cgroup") (
              field "usage_peak_eligible" (bool true) (
                field "usage_trustworthy" (bool true)
                  (field "peak_evidence_mode" (str "cgroup") end))))))))

abbrev cpu : Fields
cpu = field "effective_count" (int (pos 4)) (field "runpod_count" (int (pos 8)) end)

abbrev build : Fields
build = field "forced_single_job" (bool true) end

abbrev cgroup : Fields
cgroup = field "version" (int (pos 2)) end

abbrev snapshot : Json
snapshot = obj (
    field "schema_version" (int (pos 2)) (
      field "memory" (obj memory)
        (field "cpu" (obj cpu) (field "build" (obj build) (field "cgroup" (obj cgroup) end)))))

abbrev start : Snapshot
start = record {
  memory = memory;
  cpu = cpu;
  build = build;
  cgroup = cgroup;
  assigned = 4294967296;
  capacity = 4294967296;
  effective = 4;
  runpod = 8;
}

abbrev cgroup_peak : Fields
cgroup_peak = field "available" (bool true) (
    field "source" (str "cgroup-v2:memory.current") (
      field "scope" (str "pod-cgroup") (
        field "usage_trustworthy" (bool true) (
          field "start_bytes" (int (pos 1000)) (
            field "end_bytes" (int (pos 2000))
              (field "monotonic" (bool true) (field "within_capacity" (bool true) end)))))))

abbrev policy : Json → Fields
policy forced = field "assigned_capacity_bytes" (int (pos 4294967296)) (
    field "capacity_bytes" (int (pos 4294967296)) (
      field "capacity_is_hard_limit" (bool false) (
        field "capacity_source" (str "runpod-api-assignment") (
          field "forced_single_job" forced (
            field "peak_evidence_mode" (str "cgroup") (
              field "usage_peak_eligible" (bool true) (
                field "usage_scope" (str "pod-cgroup") (
                  field "usage_source" (str "cgroup-v2:memory.current")
                    (field "usage_trustworthy" (bool true) end)))))))))

abbrev evidence_with : Json → Fields → Fields
evidence_with forced parallelism = field "resource_start" snapshot (
    field "resource_end" snapshot (
      field "memory_policy" (obj (policy forced)) (
        field "runpod_assignment"
          (obj (field "memory_bytes" (int (pos 4294967296)) (field "vcpu_count" (int (pos 8)) end)))
          (field "selected_parallelism" (obj parallelism) (
            field "cgroup_peak" (obj cgroup_peak)
              (field "memory_peak" (obj (expected_cgroup_peak (policy forced) 1000 2000)) end))))))

abbrev single : Fields
single = field "max_jobs" (int (pos 1)) (field "extension_parallelism" (int (pos 1)) end)

accepted : validate_resource_evidence (evidence_with (bool true) single) resources ≡ ok tt
unfolding validate_resource_evidence get eq_json
accepted = refl

validate_resource_evidence-IsBound_example :
    (b : Bound) × (bind_evidence (evidence_with (bool true) single) resources ≡ ok b)
    × IsBound resources b
    × HasPeak (evidence_with (bool true) single) b
validate_resource_evidence-IsBound_example =
    validate_resource_evidence-IsBound (evidence_with (bool true) single) resources accepted

-- With 1 in place of true the requirement of one job is not made.
many_jobs :
    validate_resource_evidence
      (evidence_with (int (pos 1)) (field "max_jobs" (int (pos 64)) end))
      resources
    ≡ ok tt
unfolding validate_resource_evidence get eq_json
many_jobs = refl

abbrev snapshots : List Details
snapshots =
    record { pages = 50; count = 2; leader = true; compilers = "nvcc" ∷ [] }
    ∷ record { pages = 70; count = 3; leader = true; compilers = [] }
    ∷ []

abbrev sizes : Fields
sizes =
    field "start_bytes" (int (pos 204800))
      (field "end_bytes" (int (pos 286720)) (field "peak_bytes" (int (pos 286720)) end))

sizes_of_samples :
    let s = sample_all 4096 snapshots no_samples in
    (s.start_bytes ≡ some 204800)
    × (s.end_bytes ≡ some 286720)
    × (int (pos 286720) ≡ int (pos s.peak_bytes))
unfolding sample_all
sizes_of_samples = (refl, refl, refl)

sizes_values :
    (get "start_bytes" sizes ≡ int (pos 204800))
    × (get "end_bytes" sizes ≡ int (pos 286720))
    × (get "peak_bytes" sizes ≡ int (pos 286720))
unfolding get
sizes_values = (refl, refl, refl)

check_sizes-sample_all_example :
    check_sizes sizes
    ≡ ok (record {
      start_bytes = 204800;
      end_bytes = 286720;
      peak_bytes = (sample_all 4096 snapshots no_samples).peak_bytes;
    })
check_sizes-sample_all_example =
    check_sizes-sample_all 4096 snapshots sizes 204800 286720 sizes_of_samples.0 sizes_of_samples.1
      sizes_values.0 sizes_values.1 (sizes_values.2 ∙ sizes_of_samples.2)
