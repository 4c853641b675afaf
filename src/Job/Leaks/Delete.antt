-- ===== src/Job/Leaks/Delete.antt =====
-- `_terminate_strictly`: either the Pod is gone, or its deletion failed three times.
use mathlib.Core.Path.{subst}
use runpod_sageattention.Base.{
  ℕ, zero, suc, ◌+◌, ◌≤◌, String, eq_iff, Option, none, some, ◌∷◌, arith,
}
use runpod_sageattention.Job.Failure.{Failure, Result, ok, err, other_error}
use runpod_sageattention.Job.Effects.{called, sleep, Services, Frame, pure, call, ◌>>◌}
use runpod_sageattention.Job.Effects.Triple.{Post, Triple, Triple-bind, Triple-pure}
use runpod_sageattention.Job.Pods.{
  after_delete, delete_once, pause, terminate_attempts, terminate_strictly,
}
use runpod_sageattention.Job.Leaks.{live, failures, IsIdle, Owns, remove-only}

abbrev pub Never : Frame → Type 0
Never s = ⊥

-- The Pod is the current one, and at least `k` deletions of it failed.
pub record Tried (pod : String) (k : ℕ) (s : Frame) : Type 0 where
  pub owns : Owns pod s
  pub failed : k ≤ failures pod s.history

-- After a deletion or a failed one.
abbrev pub Deleted : String → ℕ → Option Failure → Frame → Type 0
Deleted pod k none s = IsIdle s
Deleted pod k (some e) s = Tried pod k s

after_delete-Post :
    (pod : String) (k : ℕ) (r : Result (Unit {0})) (s : Frame)
    → Tried pod k s
    → Post (Deleted pod (suc k)) Never (after_delete pod r s)
after_delete-Post pod k (ok u) s h = record {
  none_live = remove-only s.pod_id pod (live s.history) h.owns.pod_id h.owns.safe.current;
  one = h.owns.safe.one;
  named = h.owns.safe.named;
}
after_delete-Post pod k (err e) s h = record {
  owns = record {
    safe = record {
      current = h.owns.safe.current;
      one = h.owns.safe.one;
      named = h.owns.safe.named;
    };
    pod_id = h.owns.pod_id;
  };
  failed = ground (arith, h.failed, eq_iff pod pod);
}

delete_once-Triple :
    (svc : Services) (pod : String) (k : ℕ)
    → Triple (Tried pod k) (delete_once svc pod) (Deleted pod (suc k)) Never
unfolding delete_once
delete_once-Triple svc pod k = record { at = λ s h. after_delete-Post pod k _ s h }

Tried-called :
    (pod : String) (k : ℕ) (s : Frame)
    → Tried pod k s
    → Tried pod k (record s { history = called (sleep 2000) ∷ s.history })
Tried-called pod k s h = record {
  owns = record {
    safe = record {
      current = h.owns.safe.current;
      one = h.owns.safe.one;
      named = h.owns.safe.named;
    };
    pod_id = h.owns.pod_id;
  };
  failed = h.failed;
}

pause-Triple : (pod : String) (k n : ℕ) → Triple (Tried pod k) (pause n) (λ u. Tried pod k) Never
unfolding pause call
pause-Triple pod k zero = Triple-pure tt (λ s h. h)
pause-Triple pod k (suc n) = record { at = λ s h. Tried-called pod k s h }

terminate_attempts-Triple :
    (svc : Services) (pod : String) (n k : ℕ) (e : Failure)
    → Triple (Tried pod k) (terminate_attempts svc pod n (some e)) (Deleted pod (k + n)) Never
unfolding terminate_attempts
terminate_attempts-Triple svc pod zero k e =
    Triple-pure (some e) (λ s h. record { owns = h.owns; failed = omega (arith, h.failed) })
terminate_attempts-Triple svc pod (suc n) k e =
    Triple-bind (delete_once-Triple svc pod k) (next (terminate_attempts-Triple svc pod n (suc k)))
  where
    next :
        ((f : Failure)
          → Triple
              (Tried pod (suc k))
              (terminate_attempts svc pod n (some f))
              (Deleted pod (suc k + n))
              Never)
        → (o : Option Failure)
        → Triple
            (Deleted pod (suc k) o)
            (elim o [
              | none ↦ pure none
              | some f ↦ pause n >> terminate_attempts svc pod n (some f)
            ])
            (Deleted pod (k + suc n))
            Never
    next ih none = Triple-pure none (λ s h. h)
    next ih (some f) = Triple-bind (pause-Triple pod (suc k) n) (λ u.
        subst
          (λ (m : ℕ).
            Triple (Tried pod (suc k)) (terminate_attempts svc pod n (some f)) (Deleted pod m)
              Never)
          (omega arith) (ih f))

pub Owns-Tried : (pod : String) (s : Frame) → Owns pod s → Tried pod 0 s
Owns-Tried pod s h = record { owns = h; failed = omega arith }

-- Deleting the current Pod either leaves none alive, or has failed three times.
pub terminate_strictly-Triple :
    (svc : Services) (pod : String)
    → Triple (Tried pod 0) (terminate_strictly svc pod) (Deleted pod 3) Never
unfolding terminate_strictly
terminate_strictly-Triple svc pod = terminate_attempts-Triple svc pod 3 0 (other_error "")
