-- ===== src/Job/Commands.antt =====
-- The remote part of `run_job` in tools/runpod_job.py: the text of each remote command, the upload
-- and the commands in order.
use runpod_sageattention.Base.{
  ℕ, String, ◌<>◌, Bool, true, false, Option, none, some, List, [], ◌∷◌, ◌++◌, ◌==◌, if◌then◌else◌,
}
use runpod_sageattention.Base.Print.{show_ℕ, show_ℤ, shell_quote}
use runpod_sageattention.Job.Failure.{other_error, value_error, job_error, Result, ok, err}
use runpod_sageattention.Job.Failure
use runpod_sageattention.Job.Spec.{JobSpec, is_build_job}
use runpod_sageattention.Job.Assignment.{VerifiedBuildAssignment}
use runpod_sageattention.Job.Effects.{
  Endpoint, upload, script, Services, M, pure, raise, lift, gets, modify, call, ◌>>=◌, ◌>>◌,
}

-- `_resource_receipt_prefix`
unfoldable pub resource_receipt_prefix : ℕ → Result String
unfolding show_ℕ
resource_receipt_prefix bytes =
    if bytes == 0
    then err (value_error "assigned_memory_bytes must be positive")
    else ok (
        "install -d -m 0755 /run/sageattention; "
        <> ("resource_receipt=$(mktemp "
            <> ("/run/sageattention/.verified-memory-bytes-v1.XXXXXX); "
                <> ("printf '%s\\n' "
                    <> (show_ℕ bytes
                        <> (" > \"$resource_receipt\"; "
                            <> ("chmod 0444 \"$resource_receipt\"; "
                                <> ("mv -f -- \"$resource_receipt\" "
                                    <> ("/run/sageattention/verified-memory-bytes-v1"
                                        <> ("; " <> "unset resource_receipt; "))))))))))

-- `remote_exports`, the receipt prefix with it
unfoldable pub build_exports :
    Bool → Option VerifiedBuildAssignment → Result (String × List (String × String))
unfolding resource_receipt_prefix show_ℤ
build_exports false assignment = ok ("", [])
build_exports true none = err (other_error "AssertionError")
build_exports true (some a) =
    Failure.◌>>=◌ (resource_receipt_prefix a.assigned_memory_bytes) λ prefix. ok (
      prefix,
      ("RUNPOD_CPU_COUNT", show_ℤ a.vcpu_count)
          ∷ ("RUNPOD_ASSIGNED_MEMORY_BYTES", show_ℕ a.assigned_memory_bytes)
          ∷ [],
    )

unfoldable pub gpu_export : Option String → List (String × String)
gpu_export none = []
gpu_export (some g) = ("RUNPOD_SELECTED_GPU_ID", g) ∷ []

-- `"; ".join(f"export {name}={shlex.quote(value)}" ...)`
unfoldable pub join_exports : List (String × String) → String
unfolding shell_quote
join_exports [] = ""
join_exports ((name, value) ∷ []) = "export " <> (name <> ("=" <> shell_quote value))
join_exports ((name, value) ∷ e ∷ es) =
    "export " <> (name <> ("=" <> (shell_quote value <> ("; " <> join_exports (e ∷ es)))))

unfoldable pub with_exports : String → List (String × String) → String → String
unfolding join_exports
with_exports prefix [] command = command
with_exports prefix (e ∷ es) command = prefix <> (join_exports (e ∷ es) <> ("; " <> command))

-- `remote_command`
unfoldable pub remote_command :
    Bool → Option VerifiedBuildAssignment → Option String → String → Result String
unfolding build_exports gpu_export with_exports
remote_command is_build assignment selected_gpu_id command =
    Failure.◌>>=◌ (build_exports is_build assignment)
      λ (prefix, exports). ok (with_exports prefix (exports ++ gpu_export selected_gpu_id) command)

module _ (svc : Services) (spec : JobSpec) where
  unfoldable pub run_command : Endpoint → String → M (Unit {0})
  unfolding remote_command
  run_command endpoint command = do
    text ← gets (λ s. remote_command (is_build_job spec) s.assignment s.selected_gpu_id command)
    line ← lift text
    call (script endpoint line) (svc.run_script endpoint line)

  unfoldable pub run_commands : Endpoint → List String → M (Unit {0})
  unfolding run_command
  run_commands endpoint [] = pure tt
  run_commands endpoint (c ∷ cs) = run_command endpoint c >> run_commands endpoint cs

  -- `if is_build_job and verified_build_assignment is None: raise JobError(...)`
  unfoldable pub require_assignment : Bool → Option VerifiedBuildAssignment → M (Unit {0})
  require_assignment true none =
      raise (job_error "build Pod assignment did not provide verified CPU/RAM")
  require_assignment _ _ = pure tt

  -- `assert pod_id is not None and endpoint is not None`
  unfoldable pub asserted_endpoint : Option String → Option Endpoint → M Endpoint
  asserted_endpoint (some pod) (some endpoint) = pure endpoint
  asserted_endpoint _ _ = raise (other_error "AssertionError")

  -- From the selected Pod to the last remote command.
  unfoldable pub run_remote : M (Unit {0})
  unfolding run_commands require_assignment asserted_endpoint
  run_remote = do
    pod ← gets (λ s. s.pod_id)
    placed ← gets (λ s. s.endpoint)
    endpoint ← asserted_endpoint pod placed
    assignment ← gets (λ s. s.assignment)
    require_assignment (is_build_job spec) assignment
    call (upload endpoint) (svc.upload_repo endpoint)
    modify (λ s. record s { repo_uploaded = true })
    run_commands endpoint spec.commands
