-- ===== src/Job/Pods.antt =====
-- The statements of `run_job` that create, check and delete a Pod: the call of `ctl.create_pod`,
-- `verify_pod_assignment` and `_terminate_strictly` of tools/runpod_job.py.
use runpod_sageattention.Base.{ℕ, zero, suc, String, Option, none, some, ◌∷◌}
use runpod_sageattention.Base.Int.{ℤ}
use runpod_sageattention.Job.Failure.{Failure, Result, ok, err}
use runpod_sageattention.Job.Request.{PodRequest}
use runpod_sageattention.Job.Assignment.{VerifiedBuildAssignment, verify_assignment}
use runpod_sageattention.Job.Effects.{
  read_assignment, sleep, created, create_failed, deleted, delete_failed, Services, Frame, M, pure,
  lift, call, ◌>>=◌, ◌>>◌,
}
use runpod_sageattention.Job.Deadline.{timeout}

-- `pod_id = ctl.create_pod(request, ...)`
abbrev pub after_create : PodRequest → Result String → Frame → Result String × Frame
after_create request (ok pod) s =
    (ok pod, record s { pod_id = some pod; history = created request pod ∷ s.history })
after_create request (err e) s = (err e, record s { history = create_failed request ∷ s.history })

unfoldable pub create_pod : Services → PodRequest → ℤ → ℕ → M String
create_pod svc request self_terminate_seconds millis s =
    after_create request (svc.create_pod request self_terminate_seconds millis s.history) s

-- One attempt of `_terminate_strictly`, with the exception that it caught.
abbrev pub after_delete : String → Result (Unit {0}) → Frame → Result (Option Failure) × Frame
after_delete pod (ok u) s = (ok none, record s { history = deleted pod ∷ s.history })
after_delete pod (err e) s = (ok (some e), record s { history = delete_failed pod ∷ s.history })

unfoldable pub delete_once : Services → String → M (Option Failure)
delete_once svc pod s = after_delete pod (svc.terminate_pod pod 20000 s.history) s

-- `if attempt < 3: time.sleep(2)`, by the attempts that are left
unfoldable pub pause : ℕ → M (Unit {0})
pause zero = pure tt
pause (suc n) = call (sleep 2000) (λ h. ok tt)

-- The attempts that are left of `_terminate_strictly`, and the last error.
unfoldable pub terminate_attempts : Services → String → ℕ → Option Failure → M (Option Failure)
unfolding delete_once pause
terminate_attempts svc pod zero last_error = pure last_error
terminate_attempts svc pod (suc n) last_error = do
  outcome ← delete_once svc pod
  elim outcome [ none ↦ pure none | some e ↦ pause n >> terminate_attempts svc pod n (some e) ]

-- `_terminate_strictly`
unfoldable pub terminate_strictly : Services → String → M (Option Failure)
unfolding terminate_attempts
terminate_strictly svc pod = terminate_attempts svc pod 3 none

-- `verify_pod_assignment`
unfoldable pub verify_pod_assignment :
    Services → ℕ → String → PodRequest → M (Option VerifiedBuildAssignment)
unfolding timeout
verify_pod_assignment svc ends_at pod request = do
  millis ← timeout svc ends_at 30000
  payload ← call (read_assignment pod) (svc.assignment_details pod millis)
  lift (verify_assignment request payload)
