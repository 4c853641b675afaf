-- ===== src/Resources/Group/Watch/Signals.antt =====
-- The signal that the monitoring loop forwards to the build's group.
use runpod_sageattention.Base.{ℕ, ◌≡◌, Option, none, some, List, [], ◌∷◌, ◌++◌}
use runpod_sageattention.Resources.Group.Samples.{Samples}
use runpod_sageattention.Resources.Group.Watch.{Round, Monitor, Step, going, ended, raised}
use runpod_sageattention.Resources.Group.Watch.Bounded.{IsGoing}

-- The local variables with which the loop is left or goes on.
abbrev pub monitor_of : Step → Monitor
monitor_of (going m) = m
monitor_of (ended m) = m
monitor_of (raised m e) = m

-- The step has forwarded no further signal.
abbrev Keeps : Monitor → Step → Type 0
Keeps m o =
    ((monitor_of o).forwarded_signal ≡ m.forwarded_signal) × ((monitor_of o).signals ≡ m.signals)

-- The first signal that is asked for, after an earlier one if there is any.
abbrev pub first_signal : Option ℕ → List Round → Option ℕ
first_signal (some s) rs = some s
first_signal none [] = none
first_signal none (r ∷ rs) = first_signal r.requested rs

-- The signals that are sent for it.
abbrev pub signals_of : Option ℕ → List ℕ
signals_of none = []
signals_of (some s) = s ∷ []

-- The rounds that the loop made are the first of `rs`, all of them where it goes on: it forwarded
-- the first signal that they ask for, once, and no other.
pub record Forwards (before : Option ℕ) (rs : List Round) (o : Step) : Type 0 where
  pub made : List Round
  pub left : List Round
  pub rounds : rs ≡ made ++ left
  pub all : IsGoing o → left ≡ []
  pub forwarded : (monitor_of o).forwarded_signal ≡ first_signal before made
  pub once : (monitor_of o).signals ≡ signals_of (first_signal before made)
