-- ===== src/Job/Leaks/Place.antt =====
-- Placement leaves at most the current Pod alive, and a failed placement round leaves none.
use runpod_sageattention.Base.{
  ℕ, zero, suc, ◌+◌, ◌≡◌, refl, ◌≢◌, String, Bool, true, false, Option, none, some, List, [], ◌∷◌,
  arith, is_some, ◌==◌, ltb,
}
use runpod_sageattention.Base.Int.{ℤ}
use runpod_sageattention.Job.Failure.{Result, ok, err}
use runpod_sageattention.Job.Request.{PodRequest, is_cpu}
use runpod_sageattention.Job.Spec.{JobSpec, candidates}
use runpod_sageattention.Job.Effects.{Call, called, Endpoint, Services, Frame, M, pure, modify}
use runpod_sageattention.Job.Effects.Triple.{
  Post, Triple, Keeps, Triple-bind, Triple-pure, Triple-raise, Triple-modify, Triple-gets,
  Triple-if, Triple-weaken, Triple-catch_capacity, Triple-catch_placement, Keeps-pure, Keeps-raise,
  Keeps-lift, Keeps-gets, Keeps-call,
}
use runpod_sageattention.Job.Deadline.{timeout_all, timeout}
use runpod_sageattention.Job.Pods.{after_create, create_pod, verify_pod_assignment}
use runpod_sageattention.Job.Placement.{
  Attempt, selected, no_capacity, rejected, reject, check_candidate, try_candidate, try_round,
  backoff, try_rounds, place_gpu, place_cpu, place, candidate_request,
}
use runpod_sageattention.Job.Leaks.{
  NamesPods, IsSafe, IsIdle, Owns, IsIdle-IsSafe, IsSafe-called, IsIdle-called,
}
use runpod_sageattention.Job.Leaks.Delete.{Owns-Tried, terminate_strictly-Triple}

module _ {P : Frame → Type 0} (svc : Services) (ends_at : ℕ) where
  pub timeout_all-Keeps : Keeps P (timeout_all svc ends_at)
  unfolding timeout_all
  timeout_all-Keeps =
      Triple-bind (Keeps-gets _)
        λ remaining. Triple-if (remaining == 0) (λ _. Keeps-raise _) (λ _. Keeps-pure _)

  pub timeout-Keeps : (cap : ℕ) → Keeps P (timeout svc ends_at cap)
  unfolding timeout
  timeout-Keeps cap = Triple-bind timeout_all-Keeps (λ remaining. Keeps-pure _)

  -- What no call of a service changes, the check of an assignment keeps.
  pub verify_pod_assignment-Keeps :
      (pod : String) (request : PodRequest)
      → ((c : Call) (s : Frame) → P s → P (record s { history = called c ∷ s.history }))
      → Keeps P (verify_pod_assignment svc ends_at pod request)
  unfolding verify_pod_assignment
  verify_pod_assignment-Keeps pod request k =
      Triple-bind (timeout-Keeps 30000)
        λ millis. Triple-bind (Keeps-call _ _ (k _)) λ payload. Keeps-lift _

pub Owns-called :
    (pod : String) (c : Call) (s : Frame)
    → Owns pod s
    → Owns pod (record s { history = called c ∷ s.history })
Owns-called pod c s h = record { safe = IsSafe-called c s h.safe; pod_id = h.pod_id }

after_create-Post :
    (request : PodRequest) (r : Result String) (s : Frame)
    → r ≢ ok ""
    → IsIdle s
    → Post Owns IsIdle (after_create request r s)
after_create-Post request (ok pod) s named h = record {
  safe = record {
    current = (refl, rw h.none_live tt);
    one = (h.none_live, h.one);
    named = λ e. named (ground arith);
  };
  pod_id = refl;
}
after_create-Post request (err e) s named h = record {
  none_live = h.none_live;
  one = (h.none_live, h.one);
  named = h.named;
}

module _ (svc : Services) (names : NamesPods svc) where
  pub create_pod-Triple :
      (request : PodRequest) (seconds : ℤ) (millis : ℕ)
      → Triple IsIdle (create_pod svc request seconds millis) Owns IsIdle
  unfolding create_pod
  create_pod-Triple request seconds millis = record {
    at = λ s h. after_create-Post request _ s (names request seconds millis s.history) h;
  }

  module _ (spec : JobSpec) (ends_at : ℕ) where
    abbrev AfterCreate : Option String → Frame → Type 0
    AfterCreate none = IsIdle
    AfterCreate (some pod) = Owns pod

    -- A selected Pod may be alive; after any other attempt none is.
    abbrev AfterAttempt : Attempt → Frame → Type 0
    AfterAttempt selected s = IsSafe s × (is_some s.selected_gpu_id ≡ true)
    AfterAttempt no_capacity s = IsIdle s
    AfterAttempt rejected s = IsIdle s

    reject-Triple :
        (pod : String) → Triple (Owns pod) (reject svc spec ends_at pod) AfterAttempt IsSafe
    unfolding reject
    reject-Triple pod =
        Triple-bind
          (Triple-weaken (terminate_strictly-Triple svc pod) (Owns-Tried pod) (λ o s h. h)
            (λ s h. absurd h))
          (elim [
            | none ↦
                Triple-bind
                  (Triple-modify _ {Q = λ u. IsIdle}
                    (λ s h. record { none_live = h.none_live; one = h.one; named = λ e. cc }))
                  (λ u. Triple-pure _ (λ s h. h))
            | some e ↦ Triple-raise _ (λ s h. h.owns.safe)
          ])

    set_endpoint :
        (pod : String) (e : Endpoint)
        → Keeps (Owns pod) (modify (λ s. record s { endpoint = some e }))
    set_endpoint pod e = Triple-modify _ (λ s h. record {
      safe = record { current = h.safe.current; one = h.safe.one; named = h.safe.named };
      pod_id = h.pod_id;
    })

    check_candidate-Triple :
        (candidate pod : String)
        → Triple (Owns pod) (check_candidate svc spec ends_at candidate pod) AfterAttempt IsSafe
    unfolding check_candidate
    check_candidate-Triple candidate pod =
        Triple-bind
          (Triple-weaken (Keeps-call {P = Owns pod} _ _ (Owns-called pod _)) (λ s h. h) (λ a s h. h)
            (λ s h. h.safe))
          λ endpoint.
            Triple-bind
              (Triple-weaken (set_endpoint pod endpoint) (λ s h. h) (λ a s h. h) (λ s h. h.safe))
              λ u.
                Triple-bind
                  (Triple-catch_placement {R = λ o. Owns pod}
                    (verify_pod_assignment-Keeps svc ends_at pod
                      (candidate_request svc spec ends_at candidate) (Owns-called pod))
                    (λ a s h. h) (λ s h. h) (λ s h. h.safe))
                  (elim [
                    | none ↦ reject-Triple pod
                    | some assignment ↦
                        Triple-bind
                          (Triple-modify _ {Q = λ u. AfterAttempt selected} (λ s h. (
                            record {
                              current = h.safe.current;
                              one = h.safe.one;
                              named = h.safe.named;
                            },
                            refl,
                          )))
                          (λ u. Triple-pure _ (λ s h. h))
                  ])

    try_candidate-Triple :
        (candidate : String)
        → Triple IsIdle (try_candidate svc spec ends_at candidate) AfterAttempt IsSafe
    unfolding try_candidate
    try_candidate-Triple candidate =
        Triple-bind
          (Triple-modify _ {Q = λ u. IsIdle}
            (λ s h. record { none_live = h.none_live; one = h.one; named = λ e. cc }))
          λ u.
            Triple-bind
              (Triple-catch_capacity {R = AfterCreate}
                (Triple-bind (timeout-Keeps svc ends_at 120000)
                  λ millis. create_pod-Triple _ _ millis)
                (λ pod s h. h) (λ s h. h) IsIdle-IsSafe)
              (elim [
                | none ↦ Triple-pure _ (λ s h. h)
                | some pod ↦ check_candidate-Triple candidate pod
              ])

    -- A round that selected nothing leaves no Pod alive.
    record AfterRound (s : Frame) : Type 0 where
      safe : IsSafe s
      idle : is_some s.selected_gpu_id ≡ false → IsIdle s

    IsIdle-AfterRound : (s : Frame) → IsIdle s → AfterRound s
    IsIdle-AfterRound s h = record { safe = IsIdle-IsSafe s h; idle = λ e. h }

    try_round-Triple :
        (cs : List String) (only_capacity : Bool)
        → Triple IsIdle (try_round svc spec ends_at cs only_capacity) (λ b. AfterRound) IsSafe
    unfolding try_round
    try_round-Triple [] only_capacity = Triple-pure _ IsIdle-AfterRound
    try_round-Triple (c ∷ cs) only_capacity = Triple-bind (try_candidate-Triple c) (elim [
      | selected ↦ Triple-pure _ (λ s h. record { safe = h.0; idle = λ e. cc (h.1) })
      | no_capacity ↦ try_round-Triple cs only_capacity
      | rejected ↦ try_round-Triple cs false
    ])

    backoff-Keeps : (n : ℕ) → Keeps IsIdle (backoff svc spec ends_at n)
    unfolding backoff
    backoff-Keeps n =
        Triple-if (ltb 1 n)
          (λ _.
            Triple-bind (timeout-Keeps svc ends_at 5000) λ millis. Keeps-call _ _ (IsIdle-called _))
          (λ _. Keeps-pure _)

    -- After a round that selected nothing: the next round, or the end.
    retry-Triple :
        {again : M (Unit {0})} (only_capacity : Bool)
        → Triple IsIdle again (λ u. IsSafe) IsSafe
        → Triple
            (λ s. AfterRound s × (is_some s.selected_gpu_id ≡ false))
            (elim only_capacity [ true ↦ again | false ↦ pure tt ])
            (λ u. IsSafe)
            IsSafe
    retry-Triple true t = Triple-weaken t (λ s h. h.0.idle h.1) (λ u s h. h) (λ s h. h)
    retry-Triple false t = Triple-pure _ (λ s h. h.0.safe)

    try_rounds-Triple :
        (n number : ℕ) → Triple IsIdle (try_rounds svc spec ends_at n number) (λ u. IsSafe) IsSafe
    unfolding try_rounds
    try_rounds-Triple zero number = Triple-pure _ IsIdle-IsSafe
    try_rounds-Triple (suc n) number =
        Triple-bind (Triple-weaken (backoff-Keeps number) (λ s h. h) (λ a s h. h) IsIdle-IsSafe)
          λ u. Triple-bind (try_round-Triple (candidates spec) true) λ only_capacity.
            Triple-bind
              (Triple-gets _ {Q = λ b s. AfterRound s × (is_some s.selected_gpu_id ≡ b)}
                (λ s h. (h, refl)))
              (elim [
                | true ↦ Triple-pure _ (λ s h. h.0.safe)
                | false ↦ retry-Triple only_capacity (try_rounds-Triple n (number + 1))
              ])

    place_gpu-Triple : Triple IsIdle (place_gpu svc spec ends_at) (λ u. IsSafe) IsSafe
    unfolding place_gpu
    place_gpu-Triple = Triple-bind (try_rounds-Triple 2 1) λ u.
        Triple-bind (Keeps-gets _)
          λ chosen. Triple-if chosen (λ _. Keeps-pure _) (λ _. Keeps-raise _)

    place_cpu-Triple : Triple IsIdle (place_cpu svc spec ends_at) (λ u. IsSafe) IsSafe
    unfolding place_cpu
    place_cpu-Triple =
        Triple-bind
          (Triple-weaken (timeout-Keeps svc ends_at 120000) (λ s h. h) (λ a s h. h) IsIdle-IsSafe)
          λ millis.
            Triple-bind
              (Triple-weaken (create_pod-Triple _ _ millis) (λ s h. h) (λ a s h. h) IsIdle-IsSafe)
              λ pod.
                Triple-weaken
                  (Triple-bind (Keeps-call {P = Owns pod} _ _ (Owns-called pod _)) λ endpoint.
                    Triple-bind (set_endpoint pod endpoint) λ u.
                      Triple-bind
                        (verify_pod_assignment-Keeps svc ends_at pod spec.pod (Owns-called pod))
                        λ assignment. Triple-modify _ {Q = λ v. Owns pod} (λ s h. record {
                          safe = record {
                            current = h.safe.current;
                            one = h.safe.one;
                            named = h.safe.named;
                          };
                          pod_id = h.pod_id;
                        }))
                  (λ s h. h) (λ a s h. h.safe) (λ s h. h.safe)

    -- From no Pod alive, placement keeps at most the current Pod alive, however it ends.
    pub place-Triple : Triple IsIdle (place svc spec ends_at) (λ u. IsSafe) IsSafe
    unfolding place
    place-Triple = Triple-if (is_cpu spec.pod) (λ _. place_cpu-Triple) (λ _. place_gpu-Triple)
