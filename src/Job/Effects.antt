-- ===== src/Job/Effects.antt =====
-- The effects of `run_job`: the local variables that its `finally` block reads, the calls made so
-- far, and the injected services `ctl`, `transport` and `wait_fn`. What a service answers may
-- depend on all calls before it, so a statement about every `Services` covers every behaviour of
-- Runpod, of SSH and of the clock.
pub mod Triple
use runpod_sageattention.Base.{ℕ, String, Bool, false, Option, none, List, [], ◌∷◌}
use runpod_sageattention.Base.Int.{ℤ}
use runpod_sageattention.Json.{Fields}
use runpod_sageattention.Job.Failure.{Failure, Result, ok, err, capacity_unavailable, gpu_placement}
use runpod_sageattention.Job.Request.{PodRequest}
use runpod_sageattention.Job.Assignment.{VerifiedBuildAssignment}

pub record Endpoint : Type 0 where
  pub host : String
  pub port : ℤ

-- A call that creates or deletes no Pod.
pub data Call : Type 0 where
  check_auth : Call
  wait : String → Call
  read_assignment : String → Call
  upload : Endpoint → Call
  script : Endpoint → String → Call
  download : Endpoint → List String → Call
  sleep : ℕ → Call
  close : Call

pub data Event : Type 0 where
  created : PodRequest → String → Event
  create_failed : PodRequest → Event
  deleted : String → Event
  delete_failed : String → Event
  called : Call → Event

-- The calls made so far, the last one first.
abbrev pub History : Type 0
History = List Event

-- Times and timeouts are in milliseconds, where the source has float seconds.
pub record Services : Type 0 where
  pub now : History → ℕ
  pub check_auth : ℕ → History → Result (Unit {0})
  pub create_pod : PodRequest → ℤ → ℕ → History → Result String
  pub wait_for_ssh : String → History → Result Endpoint
  pub assignment_details : String → ℕ → History → Result Fields
  pub terminate_pod : String → ℕ → History → Result (Unit {0})
  pub upload_repo : Endpoint → History → Result (Unit {0})
  pub run_script : Endpoint → String → History → Result (Unit {0})
  pub download_artifacts : Endpoint → List String → History → Result (Unit {0})

-- The local variables of `run_job`.
pub record Frame : Type 0 where
  pub pod_id : Option String
  pub endpoint : Option Endpoint
  pub selected_gpu_id : Option String
  pub assignment : Option VerifiedBuildAssignment
  pub repo_uploaded : Bool
  pub history : History

abbrev pub start : Frame
start = record {
  pod_id = none;
  endpoint = none;
  selected_gpu_id = none;
  assignment = none;
  repo_uploaded = false;
  history = [];
}

-- A statement that may raise. What it assigned before it raised stays assigned.
abbrev pub M : Type 0 → Type 0
M A = Frame → Result A × Frame

unfoldable pub pure : {A : Type 0} → A → M A
pure a s = (ok a, s)

unfoldable pub raise : {A : Type 0} → Failure → M A
raise e s = (err e, s)

unfoldable pub lift : {A : Type 0} → Result A → M A
lift r s = (r, s)

unfoldable pub gets : {A : Type 0} → (Frame → A) → M A
gets f s = (ok (f s), s)

unfoldable pub modify : (Frame → Frame) → M (Unit {0})
modify f s = (ok tt, f s)

-- The call of a service that creates or deletes no Pod.
unfoldable pub call : {A : Type 0} → Call → (History → Result A) → M A
call c f s = (f s.history, record s { history = called c ∷ s.history })

abbrev pub continue : {A B : Type 0} → (A → M B) → Result A × Frame → Result B × Frame
continue f (ok a, s) = f a s
continue f (err e, s) = (err e, s)

infixl 10 ◌>>=◌ ◌>>◌
unfoldable pub ◌>>=◌ : {A B : Type 0} → M A → (A → M B) → M B
◌>>=◌ m f s = continue f (m s)

abbrev pub ◌>>◌ : {B : Type 0} → M (Unit {0}) → M B → M B
m >> n = m >>= λ _. n

-- `try: m  except CapacityUnavailableError: ...`, with `none` for the handler
abbrev pub on_capacity : {A : Type 0} → Result A × Frame → Result (Option A) × Frame
on_capacity (ok a, s) = (ok (Option.some a), s)
on_capacity (err (capacity_unavailable text), s) = (ok none, s)
on_capacity (err e, s) = (err e, s)

unfoldable pub catch_capacity : {A : Type 0} → M A → M (Option A)
catch_capacity m s = on_capacity (m s)

-- `try: m  except GpuPlacementError: ...`
abbrev pub on_placement : {A : Type 0} → Result A × Frame → Result (Option A) × Frame
on_placement (ok a, s) = (ok (Option.some a), s)
on_placement (err (gpu_placement text), s) = (ok none, s)
on_placement (err e, s) = (err e, s)

unfoldable pub catch_placement : {A : Type 0} → M A → M (Option A)
catch_placement m s = on_placement (m s)

-- `try: m  except Exception as exc: ...`, with the exception
abbrev pub on_failure : {A : Type 0} → Result A × Frame → Result (Option Failure) × Frame
on_failure (ok a, s) = (ok none, s)
on_failure (err e, s) = (ok (Option.some e), s)

unfoldable pub catch_failure : {A : Type 0} → M A → M (Option Failure)
catch_failure m s = on_failure (m s)
