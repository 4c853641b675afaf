-- ===== src/Job/Leaks/Remote.antt =====
-- The upload and the remote commands create and delete no Pod.
use runpod_sageattention.Base.{String, Bool, true, false, Option, none, some, List, [], ◌∷◌}
use runpod_sageattention.Job.Spec.{JobSpec, is_build_job}
use runpod_sageattention.Job.Assignment.{VerifiedBuildAssignment}
use runpod_sageattention.Job.Effects.{Endpoint, Services}
use runpod_sageattention.Job.Effects.Triple.{
  Keeps, Triple-bind, Triple-modify, Keeps-pure, Keeps-raise, Keeps-lift, Keeps-gets, Keeps-call,
}
use runpod_sageattention.Job.Commands.{
  asserted_endpoint, require_assignment, run_command, run_commands, run_remote,
}
use runpod_sageattention.Job.Leaks.{IsSafe, IsSafe-called}

module _ (svc : Services) (spec : JobSpec) where
  asserted_endpoint-Keeps :
      (pod : Option String) (e : Option Endpoint) → Keeps IsSafe (asserted_endpoint svc spec pod e)
  unfolding asserted_endpoint
  asserted_endpoint-Keeps (some pod) (some e) = Keeps-pure _
  asserted_endpoint-Keeps (some pod) none = Keeps-raise _
  asserted_endpoint-Keeps none e = Keeps-raise _

  require_assignment-Keeps :
      (b : Bool) (a : Option VerifiedBuildAssignment)
      → Keeps IsSafe (require_assignment svc spec b a)
  unfolding require_assignment
  require_assignment-Keeps true none = Keeps-raise _
  require_assignment-Keeps true (some a) = Keeps-pure _
  require_assignment-Keeps false a = Keeps-pure _

  run_command-Keeps :
      (e : Endpoint) (command : String) → Keeps IsSafe (run_command svc spec e command)
  unfolding run_command
  run_command-Keeps e command =
      Triple-bind (Keeps-gets _)
        λ text. Triple-bind (Keeps-lift text) λ line. Keeps-call _ _ (IsSafe-called _)

  run_commands-Keeps :
      (e : Endpoint) (commands : List String) → Keeps IsSafe (run_commands svc spec e commands)
  unfolding run_commands
  run_commands-Keeps e [] = Keeps-pure _
  run_commands-Keeps e (c ∷ cs) = Triple-bind (run_command-Keeps e c) (λ u. run_commands-Keeps e cs)

  pub run_remote-Keeps : Keeps IsSafe (run_remote svc spec)
  unfolding run_remote
  run_remote-Keeps = Triple-bind (Keeps-gets _) λ pod. Triple-bind (Keeps-gets _) λ placed.
      Triple-bind (asserted_endpoint-Keeps pod placed) λ endpoint.
        Triple-bind (Keeps-gets _) λ assignment.
          Triple-bind (require_assignment-Keeps (is_build_job spec) assignment) λ u.
            Triple-bind (Keeps-call _ _ (IsSafe-called _)) λ v.
              Triple-bind
                (Triple-modify _ {Q = λ w. IsSafe}
                  (λ s h. record { current = h.current; one = h.one; named = h.named }))
                λ w. run_commands-Keeps endpoint spec.commands
