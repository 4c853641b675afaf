-- ===== src/Resources/Main.antt =====
-- `main` of tools/pod_resources.py, from the parsed options to what it prints or starts. A
-- SystemExit is a failure with its message.
pub mod Report
use runpod_sageattention.Base.{
  ℕ, String, str_eq, Bool, true, false, not, ◌||◌, Option, none, some, List, [], ◌∷◌, is_nil,
  is_some, if◌then◌else◌,
}
use runpod_sageattention.Base.Int.{ℤ, pos, negsuc, leb_ℤ, ltb_ℤ, pos_part}
use runpod_sageattention.Job.Failure.{Result, ok, other_error, raise_if, map_result, ◌>>◌}
use runpod_sageattention.Resources.Collect.{Machine, ResourceSnapshot, collect_resources}

-- The options of `build_parser`; its group makes the four kinds of output exclusive.
pub record Options : Type 0 where
  pub json : Bool
  pub shell : Bool
  pub suggested_jobs : Bool
  pub monitor_process_group : Option String
  pub pretty : Bool
  pub filesystem_root : String
  pub memory_per_job_mib : Option ℤ
  pub reserve_mib : Option ℤ
  pub sample_interval_ms : ℤ
  pub termination_grace_seconds : ℤ
  pub command : List String

pub data Action : Type 0 where
  -- `supervise_process_group_rss` with the path, the command, the interval and the grace
  supervise : String → List String → ℤ → ℤ → Action
  print_jobs : ResourceSnapshot → Action
  print_shell : ResourceSnapshot → Action
  -- with the flag of `indent`
  print_json : Bool → ResourceSnapshot → Action

-- `value is not None and value <= 0`, and the same for a negative value
abbrev is_not_positive : Option ℤ → Bool
is_not_positive none = false
is_not_positive (some n) = leb_ℤ n (pos 0)

abbrev is_negative : Option ℤ → Bool
is_negative none = false
is_negative (some n) = ltb_ℤ n (pos 0)

-- An option that passed its check, as the number it is.
abbrev pub as_natural : Option ℤ → Option ℕ
as_natural none = none
as_natural (some n) = some (pos_part n)

-- `if command and command[0] == "--": command.pop(0)`
unfoldable pub drop_dashes : List String → List String
drop_dashes [] = []
drop_dashes (c ∷ cs) = if str_eq c "--" then cs else c ∷ cs

unfoldable pub monitor : Options → String → Result Action
unfolding drop_dashes
monitor o path = do
  raise_if (not (str_eq o.filesystem_root "/"))
      (other_error "--monitor-process-group requires the live /proc filesystem")
  raise_if (is_some o.memory_per_job_mib || is_some o.reserve_mib)
      (other_error "resource recommendation options cannot be used with --monitor-process-group")
  ok (supervise path (drop_dashes o.command) o.sample_interval_ms o.termination_grace_seconds)

unfoldable pub output : Options → ResourceSnapshot → Action
output o s =
    if o.suggested_jobs
    then print_jobs s
    else if o.shell
    then print_shell s
    else print_json o.pretty s

-- The machine is what the program reads below `filesystem_root`.
unfoldable pub report : Machine → Options → Result Action
unfolding collect_resources output
report m o = do
  raise_if (not (is_nil o.command)) (other_error "COMMAND requires --monitor-process-group")
  map_result (output o)
      (collect_resources m (as_natural o.memory_per_job_mib) (as_natural o.reserve_mib))

abbrev dispatch : Machine → Options → Option String → Result Action
unfolding monitor report
dispatch m o none = report m o
dispatch m o (some path) = monitor o path

-- `main`
unfoldable pub main : Machine → Options → Result Action
unfolding dispatch
main m o = do
  raise_if (is_not_positive o.memory_per_job_mib)
      (other_error "--memory-per-job-mib must be positive")
  raise_if (is_negative o.reserve_mib) (other_error "--reserve-mib cannot be negative")
  dispatch m o o.monitor_process_group
