-- ===== src/Resources/Examples/Commands.antt =====
-- The same machine's command line, and the assignment that run_job wrote for it.
use runpod_sageattention.Base.{
  List, ◌⊎◌, ◌≡◌, refl, String, true, false, none, some, [], ◌∷◌, arith,
}
use runpod_sageattention.Job.Failure.{ok}
use runpod_sageattention.Resources.Files.{
  walk_ancestors, read_limit, parse_meminfo, read_integer, parse_key_values,
}
use runpod_sageattention.Resources.Limit.{find_effective_limit}
use runpod_sageattention.Resources.Receipt.{
  canonical, read_verified_memory_receipt, assigned_memory_capacity,
}
use runpod_sageattention.Base.Int.{pos}
use runpod_sageattention.Job.Assignment.{VerifiedBuildAssignment}
use runpod_sageattention.Job.Commands.{build_exports}
use runpod_sageattention.Resources.Receipt.{check_parent, check_receipt}
use runpod_sageattention.Resources.Receipt.Script.{printed, moved_to, receipt_path}
use runpod_sageattention.Resources.Receipt.Written.{build_exports-assigned_memory_capacity}
use runpod_sageattention.Resources.Main.{Options, print_jobs, main}
use runpod_sageattention.Resources.Main.Report.{Prints, Starts, main-Prints_or_Starts}
use runpod_sageattention.Resources.Collect.{collect_resources}
use runpod_sageattention.Resources.Examples.{example_machine, example_snapshot, example_receipt}

abbrev example_options : Options
example_options = record {
  json = false;
  shell = false;
  suggested_jobs = true;
  monitor_process_group = none;
  pretty = false;
  filesystem_root = "/";
  memory_per_job_mib = none;
  reserve_mib = none;
  sample_interval_ms = pos 100;
  termination_grace_seconds = pos 10;
  command = [];
}

example_main : main example_machine example_options ≡ ok (print_jobs example_snapshot)
unfolding main collect_resources canonical find_effective_limit walk_ancestors read_limit
    parse_meminfo read_verified_memory_receipt read_integer parse_key_values
example_main = refl

main-Prints_or_Starts_example :
    Prints example_machine example_options (print_jobs example_snapshot)
    ⊎ Starts example_options (print_jobs example_snapshot)
main-Prints_or_Starts_example =
    main-Prints_or_Starts example_machine example_options (print_jobs example_snapshot) example_main

abbrev example_assignment : VerifiedBuildAssignment
example_assignment = record { vcpu_count = pos 8; assigned_memory_bytes = 34359738368 }

abbrev example_prefix : String
example_prefix =
    "install -d -m 0755 /run/sageattention; resource_receipt=$(mktemp /run/sageattention/.verified-memory-bytes-v1.XXXXXX); printf '%s\\n' 34359738368 > \"$resource_receipt\"; chmod 0444 \"$resource_receipt\"; mv -f -- \"$resource_receipt\" /run/sageattention/verified-memory-bytes-v1; unset resource_receipt; "

abbrev example_exports : List (String × String)
example_exports = ("RUNPOD_CPU_COUNT", "8") ∷ ("RUNPOD_ASSIGNED_MEMORY_BYTES", "34359738368") ∷ []

example_exported :
    build_exports true (some example_assignment) ≡ ok (example_prefix, example_exports)
unfolding build_exports
example_exported = refl

example_content : printed example_prefix ≡ some example_receipt.content
example_content = refl

example_safe :
    (check_parent true example_receipt.parent ≡ ok tt)
    × (check_receipt true example_receipt.opened ≡ ok tt)
unfolding check_parent check_receipt
example_safe = (refl, refl)

build_exports-assigned_memory_capacity_example :
    (moved_to example_prefix ≡ some receipt_path)
    × (assigned_memory_capacity example_receipt (some "34359738368") 68719476736
        ≡ ok (some 34359738368))
build_exports-assigned_memory_capacity_example =
    build_exports-assigned_memory_capacity example_receipt example_assignment example_prefix
      example_exports 68719476736 example_exported example_content example_safe.0 example_safe.1
      (omega arith) (omega arith)
