-- ===== src/Resources/Group/Conclude.antt =====
-- How `supervise_process_group_rss` of tools/pod_resources.py ends a build group after its
-- monitoring loop, and what it returns. What is seen of the group is a record.
pub mod Clean
use runpod_sageattention.Base.{
  ℕ, String, Bool, true, false, not, ◌&&◌, ◌||◌, Option, none, some, List, [], ◌∷◌, is_none,
  is_some, if◌then◌else◌,
}
use runpod_sageattention.Base.Int.{ℤ}
use runpod_sageattention.Job.Failure.{Result, ok, err, other_error, ◌>>=◌}
use runpod_sageattention.Resources.Group.Samples.{finish}
use runpod_sageattention.Resources.Group.Watch.{Monitor, Killing, kill_group, with_error}

-- A round of `_terminate_process_group_bounded`: `child.poll()` and whether the group exists.
pub record Waiting : Type 0 where
  pub polled : Option ℤ
  pub group_exists : Bool

-- The rounds before the deadline, and the kill after it.
pub record Termination : Type 0 where
  pub waiting : List Waiting
  pub killing : Killing

abbrev forced : Result ℤ → Result (ℤ × Bool)
forced (ok code) = ok (code, true)
forced (err e) = err e

abbrev gone : Waiting → Option ℤ
gone w = if w.group_exists then none else w.polled

abbrev first_gone : Option ℤ → Result (ℤ × Bool) → Result (ℤ × Bool)
first_gone (some code) later = ok (code, false)
first_gone none later = later

-- `_terminate_process_group_bounded`
unfoldable pub terminate_group : List Waiting → Killing → Result (ℤ × Bool)
unfolding kill_group
terminate_group [] killing = forced (kill_group killing)
terminate_group (w ∷ ws) killing =
    let later = terminate_group ws killing in first_gone (gone w) later

-- What is seen after the loop.
pub record Ending : Type 0 where
  -- `child.poll()` and whether the group exists, asked where there is a monitor error
  pub polled : Option ℤ
  pub group_exists : Bool
  pub termination : Termination
  -- `child.wait(timeout=2)`
  pub waited : Option ℤ
  -- the last question whether the group exists
  pub remains : Bool
  pub last_termination : Termination

abbrev ended_by : Monitor → Result (ℤ × Bool) → Result Monitor
ended_by m (ok (code, kill)) = ok (record m { child_returncode = some code; forced_kill = kill })
ended_by m (err e) = err e

abbrev wait_for : Monitor → Option ℤ → Result Monitor
wait_for m (some code) = ok (record m { child_returncode = some code })
wait_for m none = err (other_error "TimeoutExpired")

abbrev wait_if_running : Monitor → Option ℤ → Option ℤ → Result Monitor
wait_if_running m none waited = wait_for m waited
wait_if_running m (some code) waited = ok m

-- the first of the two terminations
unfoldable pub settle : Ending → Monitor → Result Monitor
unfolding terminate_group
settle e m =
    if is_some m.monitor_error && (is_none e.polled || e.group_exists)
    then ended_by m (terminate_group e.termination.waiting e.termination.killing)
    else wait_if_running m m.child_returncode e.waited

unfoldable pub remove_rest : Ending → Monitor → Result Monitor
unfolding terminate_group
remove_rest e m =
    if e.remains
    then ended_by (with_error "isolated build process group remained after leader exit" m)
        (terminate_group e.last_termination.waiting e.last_termination.killing)
    else ok m

abbrev exit_status : Option ℤ → Monitor → Result ℕ
unfolding finish
exit_status none m = err (other_error "AssertionError")
exit_status (some code) m = ok (finish code m.samples m.monitor_error)

-- The statements after the loop, to the returned status.
unfoldable pub conclude : Ending → Monitor → Result ℕ
unfolding settle remove_rest exit_status
conclude e m = do
  settled ← settle e m
  last ← remove_rest e settled
  exit_status last.child_returncode last
