-- ===== src/Job/Placement.antt =====
-- The placement part of `run_job` in tools/runpod_job.py: one attempt for a CPU Pod, two rounds
-- over the ordered candidates for a GPU Pod.
use runpod_sageattention.Base.{
  ℕ, zero, suc, ◌+◌, String, Bool, true, false, none, some, List, [], ◌∷◌, ltb, is_some,
  if◌then◌else◌,
}
use runpod_sageattention.Base.Int.{ℤ, ◌+ℤ◌}
use runpod_sageattention.Job.Failure.{job_error, ok}
use runpod_sageattention.Job.Request.{PodRequest, is_cpu}
use runpod_sageattention.Job.Spec.{JobSpec, candidates}
use runpod_sageattention.Job.Effects.{
  wait, sleep, Services, M, pure, raise, gets, modify, call, catch_capacity, catch_placement, ◌>>=◌,
  ◌>>◌,
}
use runpod_sageattention.Job.Deadline.{timeout}
use runpod_sageattention.Job.Pods.{create_pod, terminate_strictly, verify_pod_assignment}

-- How the attempt for one candidate ended.
pub data Attempt : Type 0 where
  selected no_capacity rejected : Attempt

-- `spec.hard_timeout_seconds + spec.terminate_grace_seconds`
unfoldable pub self_terminate_seconds : JobSpec → ℤ
self_terminate_seconds spec = spec.hard_timeout_seconds +ℤ spec.terminate_grace_seconds

module _ (svc : Services) (spec : JobSpec) (ends_at : ℕ) where
  -- `replace(spec.pod, gpu_id=candidate)`
  unfoldable pub candidate_request : String → PodRequest
  candidate_request candidate = record (spec.pod) { gpu_id = some candidate }

  -- The Pod of a candidate failed its check: delete it, or refuse to go on.
  unfoldable pub reject : String → M Attempt
  reject pod = do
    cleanup ← terminate_strictly svc pod
    elim cleanup [
      | some e ↦
          raise
            (job_error "refusing GPU candidate fallback because rejected Pod could not be deleted")
      | none ↦ do modify (λ s. record s { pod_id = none; endpoint = none }); pure rejected
    ]

  -- The Pod of a candidate was created: wait for SSH, and check it.
  unfoldable pub check_candidate : String → String → M Attempt
  unfolding reject candidate_request
  check_candidate candidate pod = do
    endpoint ← call (wait pod) (svc.wait_for_ssh pod)
    modify (λ s. record s { endpoint = some endpoint })
    verified ← catch_placement (verify_pod_assignment svc ends_at pod (candidate_request candidate))
    elim verified [
      | none ↦ reject pod
      | some assignment ↦ do
        modify (λ s. record s { selected_gpu_id = some candidate; assignment = assignment })
        pure selected
    ]

  -- One candidate of one round.
  unfoldable pub try_candidate : String → M Attempt
  unfolding check_candidate candidate_request
  try_candidate candidate = do
    modify (λ s. record s { pod_id = none; endpoint = none })
    placed ← catch_capacity (do
      millis ← timeout svc ends_at 120000
      create_pod svc (candidate_request candidate) (self_terminate_seconds spec) millis)
    elim placed [ none ↦ pure no_capacity | some pod ↦ check_candidate candidate pod ]

  -- One round over the candidates. The flag is `round_only_capacity_failures`.
  unfoldable pub try_round : List String → Bool → M Bool
  unfolding try_candidate
  try_round [] only_capacity = pure only_capacity
  try_round (c ∷ cs) only_capacity = do
    attempt ← try_candidate c
    elim attempt [
      | selected ↦ pure only_capacity
      | no_capacity ↦ try_round cs only_capacity
      | rejected ↦ try_round cs false
    ]

  -- `backoff = deadline.timeout(5.0); time.sleep(backoff)` before every round but the first
  unfoldable pub backoff : ℕ → M (Unit {0})
  backoff round_number =
      if ltb 1 round_number
      then (do millis ← timeout svc ends_at 5000; call (sleep millis) (λ h. ok tt))
      else pure tt

  -- The rounds that are left, and the number of the next one.
  unfoldable pub try_rounds : ℕ → ℕ → M (Unit {0})
  unfolding try_round backoff
  try_rounds zero round_number = pure tt
  try_rounds (suc n) round_number = do
    backoff round_number
    only_capacity ← try_round (candidates spec) true
    chosen ← gets (λ s. is_some s.selected_gpu_id)
    elim chosen [
      | true ↦ pure tt
      | false ↦ elim only_capacity [ true ↦ try_rounds n (round_number + 1) | false ↦ pure tt ]
    ]

  -- The GPU branch: two rounds, and an exception when no candidate was selected.
  unfoldable pub place_gpu : M (Unit {0})
  unfolding try_rounds
  place_gpu = do
    try_rounds 2 1
    chosen ← gets (λ s. is_some s.selected_gpu_id)
    if chosen
        then pure tt
        else raise (job_error "GPU placement exhausted two ordered rounds before upload")

  -- The CPU branch: one attempt.
  unfoldable pub place_cpu : M (Unit {0})
  place_cpu = do
    millis ← timeout svc ends_at 120000
    pod ← create_pod svc spec.pod (self_terminate_seconds spec) millis
    endpoint ← call (wait pod) (svc.wait_for_ssh pod)
    modify (λ s. record s { endpoint = some endpoint })
    assignment ← verify_pod_assignment svc ends_at pod spec.pod
    modify (λ s. record s { assignment = assignment })

  unfoldable pub place : M (Unit {0})
  unfolding place_cpu place_gpu
  place = if is_cpu spec.pod then place_cpu else place_gpu
