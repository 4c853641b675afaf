-- ===== src/Resources/Main/Report.antt =====
-- What `main` prints is within the machine's budget.
use runpod_sageattention.Base.{
  String, str_eq, Option-cases, ◌≡◌, ◌⊎◌, inl, inr, sym, none, some, true, arith,
}
use runpod_sageattention.Job.Failure.{ok, map_result-ok}
use runpod_sageattention.Resources.Collect.{Machine, ResourceSnapshot, collect_resources}
use runpod_sageattention.Resources.Collect.Budget.{Budget, collect_resources-Budget}
use runpod_sageattention.Resources.Main.{
  Options, Action, supervise, drop_dashes, monitor, output, report, main, as_natural,
}

-- The action prints a snapshot that is within the budget, in the form that the options ask for.
pub record Prints (m : Machine) (o : Options) (a : Action) : Type 0 where
  pub snapshot : ResourceSnapshot
  pub within : Budget m snapshot
  pub shown : a ≡ output o snapshot
  pub alone : o.monitor_process_group ≡ none

-- The action starts the supervisor on the live filesystem, without the options of a report.
pub record Starts (o : Options) (a : Action) : Type 0 where
  pub path : String
  pub given : o.monitor_process_group ≡ some path
  pub live : str_eq o.filesystem_root "/" ≡ true
  pub no_memory : o.memory_per_job_mib ≡ none
  pub no_reserve : o.reserve_mib ≡ none
  pub started :
      a ≡ supervise path (drop_dashes o.command) o.sample_interval_ms o.termination_grace_seconds

report-Prints :
    (m : Machine) (o : Options) (a : Action)
    → o.monitor_process_group ≡ none
    → report m o ≡ ok a
    → Prints m o a
unfolding report
report-Prints m o a alone h =
    let (s, e, shown) =
      map_result-ok (output o)
        (collect_resources m (as_natural o.memory_per_job_mib) (as_natural o.reserve_mib)) a
        (ground arith) in
    record {
      snapshot = s;
      within =
          collect_resources-Budget m (as_natural o.memory_per_job_mib) (as_natural o.reserve_mib) s
            e;
      shown = sym shown;
      alone = alone;
    }

monitor-Starts :
    (o : Options) (path : String) (a : Action)
    → o.monitor_process_group ≡ some path
    → monitor o path ≡ ok a
    → Starts o a
unfolding monitor
monitor-Starts o path a given h = record {
  path = path;
  given = given;
  live = ground arith;
  no_memory = ground arith;
  no_reserve = ground arith;
  started = ground arith;
}

-- Where `main` does not exit, it either prints a snapshot that is within the machine's budget, or
-- it starts the supervisor with the remaining command, on the live filesystem and without the
-- options of a report.
pub main-Prints_or_Starts :
    (m : Machine) (o : Options) (a : Action) → main m o ≡ ok a → Prints m o a ⊎ Starts o a
unfolding main
main-Prints_or_Starts m o a h = elim (Option-cases o.monitor_process_group) [
  | inl e ↦ inl (report-Prints m o a e (ground (arith, e)))
  | inr (path, e) ↦ inr (monitor-Starts o path a e (ground (arith, e)))
]
