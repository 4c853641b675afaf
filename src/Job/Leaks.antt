-- ===== src/Job/Leaks.antt =====
-- Which Pods are alive, read from the calls that `run_job` made, and the conditions that its
-- statements keep: at most the current Pod is alive, and a Pod is asked for only when none is.
pub mod Delete
pub mod Place
pub mod Remote
pub mod Job
use runpod_sageattention.Base.{
  ℕ, suc, ◌≤◌, ◌≡◌, refl, ◌≢◌, String, str_eq, eq_iff, Bool, true, Option, some, List, [], ◌∷◌,
  arith, All, if◌then◌else◌,
}
use runpod_sageattention.Job.Failure.{ok}
use runpod_sageattention.Job.Request.{PodRequest}
use runpod_sageattention.Job.Effects.{
  Event, created, create_failed, deleted, delete_failed, called, History, Services, Frame, Call,
}
use runpod_sageattention.Base.Int.{ℤ}

-- The ids without one of them.
unfoldable pub remove : String → List String → List String
remove p [] = []
remove p (q ∷ qs) = let rest = remove p qs in if str_eq q p then rest else q ∷ rest

-- The Pods that were created and not deleted since.
abbrev pub live : History → List String
live [] = []
live (created request pod ∷ h) = pod ∷ live h
live (deleted pod ∷ h) = remove pod (live h)
live (_ ∷ h) = live h

-- A Pod was asked for only when none was alive.
abbrev pub OneAtATime : History → Type 0
OneAtATime [] = Unit
OneAtATime (created request pod ∷ h) = (live h ≡ []) × OneAtATime h
OneAtATime (create_failed request ∷ h) = (live h ≡ []) × OneAtATime h
OneAtATime (_ ∷ h) = OneAtATime h

-- How often the deletion of a Pod failed.
abbrev pub failures : String → History → ℕ
failures p [] = 0
failures p (delete_failed q ∷ h) = if str_eq q p then suc (failures p h) else failures p h
failures p (_ ∷ h) = failures p h

-- `ctl.create_pod` returns no empty id: it raises for a response without one.
abbrev pub NamesPods : Services → Type 0
NamesPods svc =
    (request : PodRequest) (seconds : ℤ) (millis : ℕ) (h : History)
    → svc.create_pod request seconds millis h ≢ ok ""

-- At most the current Pod is alive.
pub record IsSafe (s : Frame) : Type 0 where
  pub current : All (λ p. s.pod_id ≡ some p) (live s.history)
  pub one : OneAtATime s.history
  pub named : s.pod_id ≢ some ""

-- No Pod is alive.
pub record IsIdle (s : Frame) : Type 0 where
  pub none_live : live s.history ≡ []
  pub one : OneAtATime s.history
  pub named : s.pod_id ≢ some ""

-- The current Pod is `pod`.
pub record Owns (pod : String) (s : Frame) : Type 0 where
  pub safe : IsSafe s
  pub pod_id : s.pod_id ≡ some pod

pub IsIdle-IsSafe : (s : Frame) → IsIdle s → IsSafe s
IsIdle-IsSafe s h = record { current = rw h.none_live tt; one = h.one; named = h.named }

-- A call that creates or deletes no Pod keeps all of this.
pub IsSafe-called :
    (c : Call) (s : Frame) → IsSafe s → IsSafe (record s { history = called c ∷ s.history })
IsSafe-called c s h = record { current = h.current; one = h.one; named = h.named }

pub IsIdle-called :
    (c : Call) (s : Frame) → IsIdle s → IsIdle (record s { history = called c ∷ s.history })
IsIdle-called c s h = record { none_live = h.none_live; one = h.one; named = h.named }

-- Without the only id that is alive, none is.
pub remove-only :
    (o : Option String) (p : String) (ids : List String)
    → o ≡ some p
    → All (λ q. o ≡ some q) ids
    → remove p ids ≡ []
unfolding remove
remove-only o p [] e h = refl
remove-only o p (q ∷ qs) e h = ground (arith, eq_iff q p, remove-only o p qs, h.0)
