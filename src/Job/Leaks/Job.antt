-- ===== src/Job/Leaks/Job.antt =====
-- `run_job` leaves no Pod alive that it could delete, and has at most one alive at a time.
use runpod_sageattention.Base.{
  ℕ, ◌≤◌, ◌≡◌, refl, ◌⊎◌, inl, inr, String, str_eq, eq_iff, Bool, true, false, not, ◌&&◌, Option,
  none, some, List, [], ◌∷◌, arith, All, is_nil, ltb,
}
use runpod_sageattention.Job.Failure.{Failure, Result, ok, err, other_error}
use runpod_sageattention.Job.Spec.{LocalFiles, JobSpec, validate}
use runpod_sageattention.Job.Effects.{
  called, close, Endpoint, History, Services, Frame, M, start, pure, raise, catch_failure,
  on_failure,
}
use runpod_sageattention.Job.Effects.Triple.{
  Post, Triple, Triple-bind, Triple-pure, Triple-raise, Triple-gets, Triple-if, Triple-call,
  Triple-weaken, Keeps-call,
}
use runpod_sageattention.Job.Deadline.{deadline}
use runpod_sageattention.Job.Run.{
  JobResult, body, try_download, cleanup, kept_artifact_error, verdict, finish, run_with_deadline,
  from_deadline, from_validate, run_job,
}
use runpod_sageattention.Job.Leaks.{
  live, OneAtATime, failures, NamesPods, IsSafe, IsIdle, IsIdle-IsSafe, IsSafe-called,
  IsIdle-called,
}
use runpod_sageattention.Job.Leaks.Delete.{Never, Tried, Owns-Tried, terminate_strictly-Triple}
use runpod_sageattention.Job.Leaks.Remote.{run_remote-Keeps}
use runpod_sageattention.Job.Leaks.Place.{timeout-Keeps, place-Triple}

-- No Pod is alive, or only one whose deletion failed three times.
abbrev pub AllStuck : History → Type 0
AllStuck h = (live h ≡ []) ⊎ ((pod : String) × All (λ p. pod ≡ p) (live h) × (3 ≤ failures pod h))

module _ (svc : Services) (spec : JobSpec) where
  -- An exception that the caller catches leaves what held when it was raised.
  catch_failure-Triple :
      {A : Type 0} {m : M A} {P : Frame → Type 0}
      → Triple P m (λ a. IsSafe) IsSafe
      → Triple P (catch_failure m) (λ o. IsSafe) Never
  unfolding catch_failure
  catch_failure-Triple {A} {m} t = record { at = λ s h. next (m s) (t.at s h) }
    where
      next :
          (o : Result A × Frame)
          → Post (λ a. IsSafe) IsSafe o
          → Post (λ a. IsSafe) Never (on_failure o)
      next (ok a, s) h = h
      next (err e, s) h = h

  module _ (ends_at : ℕ) where
    -- A statement that never raises fits before any exception.
    quiet :
        {A : Type 0} {m : M A} {P E : Frame → Type 0} {Q : A → Frame → Type 0}
        → Triple P m Q Never
        → Triple P m Q E
    quiet t = Triple-weaken t (λ s h. h) (λ a s h. h) (λ s h. absurd h)

    body-Triple : NamesPods svc → Triple IsIdle (body svc spec ends_at) (λ u. IsSafe) IsSafe
    unfolding body
    body-Triple names =
        Triple-bind
          (Triple-weaken (timeout-Keeps svc ends_at 30000) (λ s h. h) (λ a s h. h) IsIdle-IsSafe)
          λ millis.
            Triple-bind
              (Triple-weaken (Keeps-call {P = IsIdle} _ _ (IsIdle-called _)) (λ s h. h) (λ a s h. h)
                IsIdle-IsSafe)
              λ u. Triple-bind (place-Triple svc names spec ends_at) λ v. run_remote-Keeps svc spec

    try_download-Triple :
        (e : Option Endpoint) (uploaded : Bool) (remaining : ℕ)
        → Triple IsSafe (try_download svc spec ends_at e uploaded remaining) (λ o. IsSafe) Never
    unfolding try_download
    try_download-Triple (some e) true remaining =
        Triple-if (not (is_nil spec.artifact_paths) && ltb 1000 remaining)
          (λ _. catch_failure-Triple (Keeps-call _ _ (IsSafe-called _)))
          (λ _. Triple-pure _ (λ s h. h))
    try_download-Triple (some e) false remaining = Triple-pure _ (λ s h. h)
    try_download-Triple none uploaded remaining = Triple-pure _ (λ s h. h)

    -- After the cleanup: no Pod is alive, or only one whose deletion failed three times.
    abbrev AfterCleanup : Option Failure → Frame → Type 0
    AfterCleanup none s = IsIdle s
    AfterCleanup (some e) s = (pod : String) × Tried pod 3 s

    none_alive :
        (o : Option String) (ids : List String) → o ≡ none → All (λ p. o ≡ some p) ids → ids ≡ []
    none_alive o [] e h = refl
    none_alive o (p ∷ ids) e h = cc (e, h.0)

    cleanup-Triple :
        (pod : Option String)
        → Triple
            (λ s. IsSafe s × (s.pod_id ≡ pod))
            (cleanup svc spec ends_at pod)
            AfterCleanup
            Never
    unfolding cleanup
    cleanup-Triple none = Triple-pure _ (λ s h. record {
      none_live = none_alive s.pod_id (live s.history) h.1 h.0.current;
      one = h.0.one;
      named = h.0.named;
    })
    cleanup-Triple (some pod) =
        Triple-if (str_eq pod "")
          (λ e. Triple-pure _ (λ s h. absurd (h.0.named (ground (arith, h.1, eq_iff pod "")))))
          (λ e.
            Triple-weaken (terminate_strictly-Triple svc pod)
              (λ s h. Owns-Tried pod s (record { safe = h.0; pod_id = h.1 }))
              (elim [ none ↦ λ s h. h | some f ↦ λ s h. (pod, h) ]) (λ s h. h))

    -- What is known when the verdict is given, after the cleanup.
    abbrev Closed : Option Failure → Frame → Type 0
    Closed none s = (live s.history ≡ []) × OneAtATime s.history
    Closed (some e) s = AllStuck s.history × OneAtATime s.history

    abbrev AfterResult : JobResult → Frame → Type 0
    AfterResult r s = (live s.history ≡ []) × OneAtATime s.history

    abbrev AfterFailure : Frame → Type 0
    AfterFailure s = AllStuck s.history × OneAtATime s.history

    stuck :
        (o : Option String) (pod : String) (ids : List String)
        → o ≡ some pod
        → All (λ p. o ≡ some p) ids
        → All (λ p. pod ≡ p) ids
    stuck o pod [] e h = tt
    stuck o pod (p ∷ ids) e h = (cc (e, h.0), stuck o pod ids e h.1)

    Closed-AfterFailure : (c : Option Failure) (s : Frame) → Closed c s → AfterFailure s
    Closed-AfterFailure none s h = (inl h.0, h.1)
    Closed-AfterFailure (some e) s h = h

    AfterCleanup-Closed :
        (c : Option Failure) (s : Frame)
        → AfterCleanup c s
        → Closed c (record s { history = called close ∷ s.history })
    AfterCleanup-Closed none s h = (h.none_live, h.one)
    AfterCleanup-Closed (some e) s (pod, h) = (
      inr (pod, stuck s.pod_id pod (live s.history) h.owns.pod_id h.owns.safe.current, h.failed),
      h.owns.safe.one,
    )

    result-Triple :
        Triple (Closed none) (verdict svc spec ends_at none none none) AfterResult AfterFailure
    unfolding verdict pure raise
    result-Triple = record { at = λ s h. with_pod s s.pod_id h }
      where
        with_endpoint :
            (s : Frame) (pod : String) (o : Option Endpoint)
            → Closed none s
            → Post AfterResult AfterFailure (elim o [
              | none ↦ raise (other_error "AssertionError") s
              | some endpoint ↦
                  pure
                    (record {
                      pod_id = pod;
                      endpoint = endpoint;
                      artifact_output = spec.artifact_output;
                      selected_gpu_id = s.selected_gpu_id;
                    })
                    s
            ])
        with_endpoint s pod none h = (inl h.0, h.1)
        with_endpoint s pod (some e) h = h

        with_pod :
            (s : Frame) (o : Option String)
            → Closed none s
            → Post AfterResult AfterFailure (elim o [
              | none ↦ raise (other_error "AssertionError") s
              | some pod ↦ elim s.endpoint [
                | none ↦ raise (other_error "AssertionError") s
                | some endpoint ↦
                    pure
                      (record {
                        pod_id = pod;
                        endpoint = endpoint;
                        artifact_output = spec.artifact_output;
                        selected_gpu_id = s.selected_gpu_id;
                      })
                      s
              ]
            ])
        with_pod s none h = (inl h.0, h.1)
        with_pod s (some pod) h = with_endpoint s pod s.endpoint h

    verdict-Triple :
        (primary artifact c : Option Failure)
        → Triple (Closed c) (verdict svc spec ends_at primary artifact c) AfterResult AfterFailure
    unfolding verdict
    verdict-Triple none none none = result-Triple
    verdict-Triple none none (some e) = Triple-raise _ (Closed-AfterFailure (some e))
    verdict-Triple none (some a) c = Triple-raise _ (Closed-AfterFailure c)
    verdict-Triple (some p) a c = Triple-raise _ (Closed-AfterFailure c)

    finish-Triple :
        (primary : Option Failure)
        → Triple IsSafe (finish svc spec ends_at primary) AfterResult AfterFailure
    unfolding finish
    finish-Triple primary = Triple-bind (Triple-gets _ {Q = λ a. IsSafe} (λ s h. h)) λ endpoint.
        Triple-bind (Triple-gets _ {Q = λ a. IsSafe} (λ s h. h)) λ uploaded.
          Triple-bind (Triple-gets _ {Q = λ a. IsSafe} (λ s h. h)) λ remaining.
            Triple-bind (quiet (try_download-Triple endpoint uploaded remaining)) λ artifact.
              Triple-bind (Triple-gets _ {Q = λ o s. IsSafe s × (s.pod_id ≡ o)} (λ s h. (h, refl)))
                λ pod. Triple-bind (quiet (cleanup-Triple pod)) λ c.
                  Triple-bind
                    (Triple-call _ _ {Q = λ u. Closed c}
                      (λ s h. Closed-AfterFailure c _ (AfterCleanup-Closed c s h))
                      (λ u. AfterCleanup-Closed c))
                    λ u.
                      verdict-Triple primary (kept_artifact_error svc spec ends_at primary artifact)
                        c

    run_with_deadline-Triple :
        NamesPods svc → Triple IsIdle (run_with_deadline svc spec ends_at) AfterResult AfterFailure
    unfolding run_with_deadline
    run_with_deadline-Triple names =
        Triple-bind (quiet (catch_failure-Triple (body-Triple names))) finish-Triple

start-IsIdle : IsIdle start
start-IsIdle = record { none_live = refl; one = tt; named = λ e. cc }

-- What `run_job` leaves behind.
abbrev pub Deletes : Result JobResult × Frame → Type 0
Deletes =
    Post (λ r s. (live s.history ≡ []) × OneAtATime s.history)
      (λ s. AllStuck s.history × OneAtATime s.history)

module _ (svc : Services) (spec : JobSpec) (names : NamesPods svc) where
  from_deadline-Deletes : (r : Result ℕ) → Deletes (from_deadline svc spec r start)
  unfolding raise
  from_deadline-Deletes (ok ends_at) =
      (run_with_deadline-Triple svc spec ends_at names).at start start-IsIdle
  from_deadline-Deletes (err e) = (inl refl, tt)

  from_validate-Deletes : (r : Result (Unit {0})) → Deletes (from_validate svc spec r start)
  unfolding raise
  from_validate-Deletes (ok u) =
      from_deadline-Deletes (deadline spec.hard_timeout_seconds (svc.now []))
  from_validate-Deletes (err e) = (inl refl, tt)

-- With a service that names every Pod it creates: if `run_job` returns, every Pod that it created
-- was deleted; if it raises, no Pod is alive but at most one, whose deletion failed three times.
-- In both cases a Pod was asked for only while none was alive.
pub run_job-Deletes :
    (svc : Services) (files : LocalFiles) (spec : JobSpec)
    → NamesPods svc
    → Deletes (run_job svc files spec)
unfolding run_job
run_job-Deletes svc files spec names = from_validate-Deletes svc spec names (validate files spec)
