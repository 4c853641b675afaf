-- ===== src/Resources/Group/Watch.antt =====
-- The monitoring loop of `supervise_process_group_rss` in tools/pod_resources.py. What a round sees
-- of signals, of the child, of /proc and of the clock is a record; times are in milliseconds. The
-- checkpoint files are left out.
pub mod Bounded
pub mod Signals
use runpod_sageattention.Base.{
  ℕ, ◌+◌, String, Bool, true, false, not, Option, none, some, List, [], ◌∷◌, ◌++◌, leb,
  if◌then◌else◌,
}
use runpod_sageattention.Base.Int.{ℤ}
use runpod_sageattention.Job.Failure.{Result, ok, err, Failure, value_error, refuse_if, ◌>>=◌, ◌>>◌}
use runpod_sageattention.Resources.Group.{Details}
use runpod_sageattention.Resources.Group.Samples.{Samples, sample}

-- What `_kill_process_group_bounded` sees after SIGKILL: `child.poll()`, what `child.wait` returns
-- where it does not time out, and whether the group still exists when the last wait is over.
pub record Killing : Type 0 where
  pub polled : Option ℤ
  pub waited : Option ℤ
  pub remains : Bool

abbrev leader_code : Option ℤ → Option ℤ → Result ℤ
leader_code (some code) waited = ok code
leader_code none (some code) = ok code
leader_code none none = err (value_error "build process group did not exit after SIGKILL")

-- `_kill_process_group_bounded`
unfoldable pub kill_group : Killing → Result ℤ
kill_group k = do
  code ← leader_code k.polled k.waited
  refuse_if k.remains "build descendants remained after process-group SIGKILL"
  ok code

pub record Round : Type 0 where
  -- `signal_state["requested"]`, and the time at which a signal is forwarded
  pub requested : Option ℕ
  pub forward_time : ℕ
  -- `child.poll()` and `_process_group_exists`
  pub polled : Option ℤ
  pub group_exists : Bool
  -- the time that is compared with the termination deadline, and what a kill sees
  pub check_time : ℕ
  pub killing : Killing
  -- the snapshot of the group, and what is asked again where it shows nothing
  pub details : Result Details
  pub polled_after : Option ℤ
  pub exists_after : Bool

-- The local variables of the loop, with the signals that were forwarded.
pub record Monitor : Type 0 where
  pub samples : Samples
  pub forwarded_signal : Option ℕ
  pub termination_deadline : Option ℕ
  pub child_returncode : Option ℤ
  pub forced_kill : Bool
  pub monitor_error : Option String
  pub signals : List ℕ

-- The loop goes on, has ended, or an exception left it.
pub data Step : Type 0 where
  going ended : Monitor → Step
  raised : Monitor → Failure → Step

-- `_signal_process_group` with the first requested signal
abbrev pub forward : ℕ → Option ℕ → Option ℕ → ℕ → Monitor → Monitor
forward grace (some s) none now m = record m {
  forwarded_signal = some s;
  termination_deadline = some (now + grace);
  signals = m.signals ++ s ∷ [];
}
forward grace _ _ now m = m

abbrev pub with_error : String → Monitor → Monitor
with_error text m = record m { monitor_error = some text }

abbrev pub with_returncode : Option ℤ → Monitor → Monitor
with_returncode code m = record m { child_returncode = code }

-- a snapshot that shows no process of the group
abbrev pub vanished : Option ℤ → Bool → Monitor → Step
vanished (some code) false m = ended (with_returncode (some code) m)
vanished polled exists m =
    ended
      (with_error "running build process group disappeared from /proc" (with_returncode polled m))

abbrev pub sampled : Round → Monitor → Bool × Samples → Step
sampled r m (true, s) = going (record m { samples = s })
sampled r m (false, s) = vanished r.polled_after r.exists_after m

abbrev pub observe : ℕ → Round → Result Details → Monitor → Step
unfolding sample
observe page_size r (ok d) m = sampled r m (sample page_size d m.samples)
observe page_size r (err e) m = raised m e

abbrev pub kill : Result ℤ → Monitor → Step
kill (ok code) m = ended (record m { child_returncode = some code; forced_kill = true })
kill (err e) m = raised m e

abbrev pub before_deadline : Option ℕ → ℕ → Bool
before_deadline none now = true
before_deadline (some deadline) now = not (leb deadline now)

abbrev pub go_on : ℕ → Round → Monitor → Step
unfolding observe kill_group
go_on page_size r m =
    if before_deadline m.termination_deadline r.check_time
    then observe page_size r r.details m
    else kill (kill_group r.killing) m

-- the leader has returned
abbrev pub returned : Bool → Option ℕ → ℕ → Round → Monitor → Step
unfolding go_on
returned false deadline page_size r m = ended m
returned true none page_size r m =
    ended (with_error "build descendants outlived the isolated group leader" m)
returned true (some deadline) page_size r m = go_on page_size r m

abbrev pub after_poll : Option ℤ → ℕ → Round → Monitor → Step
unfolding returned go_on
after_poll none page_size r m = go_on page_size r m
after_poll (some code) page_size r m = returned r.group_exists m.termination_deadline page_size r m

-- One round of the loop.
unfoldable pub step : ℕ → ℕ → Round → Monitor → Step
unfolding after_poll
step page_size grace r m =
    after_poll r.polled page_size r
      (with_returncode r.polled (forward grace r.requested m.forwarded_signal r.forward_time m))

abbrev pub then_run : Step → (Monitor → Step) → Step
then_run (going m) next = next m
then_run (ended m) next = ended m
then_run (raised m e) next = raised m e

-- The rounds of the loop.
unfoldable pub run : ℕ → ℕ → List Round → Monitor → Step
unfolding step
run page_size grace [] m = going m
run page_size grace (r ∷ rs) m = then_run (step page_size grace r m) (run page_size grace rs)
