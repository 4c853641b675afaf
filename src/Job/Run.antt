-- ===== src/Job/Run.antt =====
-- `run_job` of tools/runpod_job.py: the body of its `try`, its `finally`, and the verdict.
use runpod_sageattention.Base.{
  ℕ, String, str_eq, Bool, true, ◌&&◌, Option, none, some, [], ltb, is_nil, not, if◌then◌else◌,
}
use runpod_sageattention.Base.Text.{codes, is_infix}
use runpod_sageattention.Job.Failure.{Failure, message, job_error, other_error, Result, ok, err}
use runpod_sageattention.Job.Spec.{LocalFiles, JobSpec, validate}
use runpod_sageattention.Job.Effects.{
  Endpoint, check_auth, download, close, Services, Frame, M, pure, raise, gets, call, start,
  catch_failure, ◌>>=◌, ◌>>◌,
}
use runpod_sageattention.Job.Deadline.{deadline, left, timeout}
use runpod_sageattention.Job.Pods.{terminate_strictly}
use runpod_sageattention.Job.Placement.{place}
use runpod_sageattention.Job.Commands.{run_remote}

pub record JobResult : Type 0 where
  pub pod_id : String
  pub endpoint : Endpoint
  pub artifact_output : String
  pub selected_gpu_id : Option String

module _ (svc : Services) (spec : JobSpec) (ends_at : ℕ) where
  -- The `try` block.
  unfoldable pub body : M (Unit {0})
  body = do
    millis ← timeout svc ends_at 30000
    call check_auth (svc.check_auth millis)
    place svc spec ends_at
    run_remote svc spec

  -- The download in the `finally` block, with the exception that it caught.
  unfoldable pub try_download : Option Endpoint → Bool → ℕ → M (Option Failure)
  try_download (some endpoint) true remaining =
      if not (is_nil spec.artifact_paths) && ltb 1000 remaining
      then catch_failure (
          call (download endpoint spec.artifact_paths)
            (svc.download_artifacts endpoint spec.artifact_paths))
      else pure none
  try_download _ _ remaining = pure none

  -- `_terminate_strictly(ctl, pod_id) if pod_id else None`; an empty id is false
  unfoldable pub cleanup : Option String → M (Option Failure)
  cleanup none = pure none
  cleanup (some pod) = if str_eq pod "" then pure none else terminate_strictly svc pod

  -- `"missing requested artifact:" in str(artifact_error)` after a failed job
  unfoldable pub kept_artifact_error : Option Failure → Option Failure → Option Failure
  kept_artifact_error (some primary) (some artifact) =
      if is_infix (codes "missing requested artifact:") (codes (message artifact))
      then none
      else some artifact
  kept_artifact_error primary artifact = artifact

  -- The exception after the `finally` block, or the result.
  unfoldable pub verdict :
      Option Failure → Option Failure → Option Failure → Frame → Result JobResult × Frame
  verdict none none none s = elim s.pod_id [
    | none ↦ raise (other_error "AssertionError") s
    | some pod ↦ elim s.endpoint [
      | none ↦ raise (other_error "AssertionError") s
      | some endpoint ↦
          pure
            (record {
              pod_id = pod;
              endpoint = endpoint;
              artifact_output = spec.artifact_output;
              selected_gpu_id = s.selected_gpu_id;
            })
            s
    ]
  ]
  verdict primary artifact cleanup_error s =
      raise (job_error "job, artifact download or Pod cleanup failed") s

  -- The `finally` block after the body, and what follows it.
  unfoldable pub finish : Option Failure → M JobResult
  unfolding try_download cleanup kept_artifact_error verdict
  finish primary = do
    endpoint ← gets (λ s. s.endpoint)
    uploaded ← gets (λ s. s.repo_uploaded)
    remaining ← gets (λ s. left svc ends_at s.history)
    artifact ← try_download endpoint uploaded remaining
    pod ← gets (λ s. s.pod_id)
    cleanup_error ← cleanup pod
    call close (λ h. ok tt)
    verdict primary (kept_artifact_error primary artifact) cleanup_error

  unfoldable pub run_with_deadline : M JobResult
  unfolding body finish
  run_with_deadline = do primary ← catch_failure body; finish primary

abbrev pub from_deadline : Services → JobSpec → Result ℕ → M JobResult
from_deadline svc spec (err e) = raise e
from_deadline svc spec (ok ends_at) = run_with_deadline svc spec ends_at

abbrev pub from_validate : Services → JobSpec → Result (Unit {0}) → M JobResult
from_validate svc spec (err e) = raise e
from_validate svc spec (ok u) =
    from_deadline svc spec (deadline spec.hard_timeout_seconds (svc.now []))

-- `run_job`
unfoldable pub run_job : Services → LocalFiles → JobSpec → Result JobResult × Frame
unfolding run_with_deadline
run_job svc files spec = from_validate svc spec (validate files spec) start
