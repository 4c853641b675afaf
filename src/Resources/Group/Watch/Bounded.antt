-- ===== src/Resources/Group/Watch/Bounded.antt =====
-- After a forwarded signal the monitoring loop goes on only from rounds that check their clock
-- before the termination deadline; rounds that are spaced by the interval are bounded in number.
use runpod_sageattention.Base.{
  ℕ, ◌+◌, ◌*◌, ◌≤◌, ◌<◌, ◌≡◌, refl, sym, ◌∙◌, inl, inr, Bool, true, false, Option, none, some, List,
  [], ◌∷◌, length, arith, Bool-cases, All,
}
use runpod_sageattention.Base.Int.{ℤ}
use runpod_sageattention.Job.Failure.{Result, ok, err}
use runpod_sageattention.Resources.Group.{Details}
use runpod_sageattention.Resources.Group.Samples.{Samples, sample}
use runpod_sageattention.Resources.Group.Watch.{
  Round, Monitor, Step, going, ended, raised, forward, vanished, sampled, observe, kill, kill_group,
  before_deadline, go_on, returned, after_poll, step, then_run, run,
}

-- A signal was forwarded, and the loop has until the deadline.
record IsEnding (deadline : ℕ) (m : Monitor) : Type 0 where
  signal : ℕ
  forwarded : m.forwarded_signal ≡ some signal
  until : m.termination_deadline ≡ some deadline

-- The round was before the deadline, which stays.
abbrev Goes : ℕ → ℕ → Step → Type 0
Goes deadline time (going m) = (time < deadline) × IsEnding deadline m
Goes deadline time _ = Unit

vanished-Goes :
    (deadline time : ℕ) (p : Option ℤ) (b : Bool) (m : Monitor)
    → Goes deadline time (vanished p b m)
vanished-Goes deadline time (some c) false m = tt
vanished-Goes deadline time (some c) true m = tt
vanished-Goes deadline time none false m = tt
vanished-Goes deadline time none true m = tt

sampled-Goes :
    (deadline time : ℕ) (r : Round) (m : Monitor) (b : Bool × Samples)
    → time < deadline
    → IsEnding deadline m
    → Goes deadline time (sampled r m b)
sampled-Goes deadline time r m (true, s) h i =
    (h, record { signal = i.signal; forwarded = i.forwarded; until = i.until })
sampled-Goes deadline time r m (false, s) h i =
    vanished-Goes deadline time r.polled_after r.exists_after m

observe-Goes :
    (page_size deadline time : ℕ) (r : Round) (d : Result Details) (m : Monitor)
    → time < deadline
    → IsEnding deadline m
    → Goes deadline time (observe page_size r d m)
unfolding observe
observe-Goes page_size deadline time r (ok d) m h i =
    sampled-Goes deadline time r m (sample page_size d m.samples) h i
observe-Goes page_size deadline time r (err e) m h i = tt

kill-Goes : (deadline time : ℕ) (k : Result ℤ) (m : Monitor) → Goes deadline time (kill k m)
kill-Goes deadline time (ok c) m = tt
kill-Goes deadline time (err e) m = tt

before_deadline-lt : (o : Option ℕ) (d t : ℕ) → o ≡ some d → before_deadline o t ≡ true → t < d
before_deadline-lt none d t e h = cc
before_deadline-lt (some c) d t e h = let q : c ≡ d = cc in ground (arith, q)

go_on-Goes :
    (page_size deadline : ℕ) (r : Round) (m : Monitor)
    → IsEnding deadline m
    → Goes deadline r.check_time (go_on page_size r m)
unfolding go_on
go_on-Goes page_size deadline r m i =
    elim (Bool-cases (before_deadline m.termination_deadline r.check_time)) [
      | inl b ↦ rw b (
          observe-Goes page_size deadline r.check_time r r.details m
            (before_deadline-lt _ deadline r.check_time i.until b) i)
      | inr b ↦ rw b (kill-Goes deadline r.check_time (kill_group r.killing) m)
    ]

returned-Goes :
    (b : Bool) (o : Option ℕ) (page_size deadline : ℕ) (r : Round) (m : Monitor)
    → IsEnding deadline m
    → Goes deadline r.check_time (returned b o page_size r m)
unfolding returned
returned-Goes false o page_size deadline r m i = tt
returned-Goes true none page_size deadline r m i = tt
returned-Goes true (some d) page_size deadline r m i = go_on-Goes page_size deadline r m i

after_poll-Goes :
    (o : Option ℤ) (page_size deadline : ℕ) (r : Round) (m : Monitor)
    → IsEnding deadline m
    → Goes deadline r.check_time (after_poll o page_size r m)
unfolding after_poll
after_poll-Goes none page_size deadline r m i = go_on-Goes page_size deadline r m i
after_poll-Goes (some c) page_size deadline r m i =
    returned-Goes r.group_exists m.termination_deadline page_size deadline r m i

forward-IsEnding :
    (grace now deadline : ℕ) (asked before : Option ℕ) (m : Monitor)
    → m.forwarded_signal ≡ before
    → IsEnding deadline m
    → IsEnding deadline (forward grace asked before now m)
forward-IsEnding grace now deadline none none m e i = i
forward-IsEnding grace now deadline none (some b) m e i = i
forward-IsEnding grace now deadline (some a) (some b) m e i = i
forward-IsEnding grace now deadline (some a) none m e i = absurd (none-some (sym e ∙ i.forwarded))
  where
    none-some : {x : ℕ} → none ≡ some x → ⊥
    none-some p = cc

step-Goes :
    (page_size grace deadline : ℕ) (r : Round) (m : Monitor)
    → IsEnding deadline m
    → Goes deadline r.check_time (step page_size grace r m)
unfolding step
step-Goes page_size grace deadline r m i =
    let f =
      forward-IsEnding grace r.forward_time deadline r.requested m.forwarded_signal m refl i in
    after_poll-Goes r.polled page_size deadline r _
      (record { signal = f.signal; forwarded = f.forwarded; until = f.until })

-- Rounds that sleep for the interval: each one checks its clock at least that much after the one
-- before.
abbrev pub IsSpaced : ℕ → ℕ → List Round → Type 0
IsSpaced interval start [] = Unit
IsSpaced interval start (r ∷ rs) =
    (start ≤ r.check_time) × IsSpaced interval (r.check_time + interval) rs

-- The loop goes on no longer than until the deadline.
abbrev Within : ℕ → ℕ → Step → Type 0
Within elapsed limit (going m) = elapsed ≤ limit
Within elapsed limit _ = Unit

-- the time that rounds of this interval take
elapsed : ℕ → List Round → ℕ
elapsed interval [] = 0
elapsed interval (r ∷ rs) = interval + elapsed interval rs

then_run-Within :
    (deadline time e l e' l' : ℕ) (o : Step) (next : Monitor → Step)
    → Goes deadline time o
    → ((m : Monitor) → time < deadline → IsEnding deadline m → Within e' l' (next m))
    → (time < deadline → e' ≤ l' → e ≤ l)
    → Within e l (then_run o next)
then_run-Within deadline time e l e' l' (going m) next g k f = weaken (next m) (k m g.0 g.1)
  where
    weaken : (o : Step) → Within e' l' o → Within e l o
    weaken (going n) h = f g.0 h
    weaken (ended n) h = tt
    weaken (raised n x) h = tt
then_run-Within deadline time e l e' l' (ended m) next g k f = tt
then_run-Within deadline time e l e' l' (raised m x) next g k f = tt

run-Within :
    (page_size grace interval deadline start : ℕ) (rs : List Round) (m : Monitor)
    → IsEnding deadline m
    → IsSpaced interval start rs
    → start ≤ deadline + interval
    → Within (start + elapsed interval rs) (deadline + interval) (run page_size grace rs m)
unfolding run elapsed
run-Within page_size grace interval deadline start [] m i s h = omega (arith, h)
run-Within page_size grace interval deadline start (r ∷ rs) m i s h =
    then_run-Within deadline r.check_time _ _ _ _ (step page_size grace r m)
      (run page_size grace rs) (step-Goes page_size grace deadline r m i)
      (λ n t j.
        run-Within page_size grace interval deadline (r.check_time + interval) rs n j s.1
          (omega (arith, t)))
      (λ t g. omega (arith, s.0, g))

-- The loop has ended, or an exception has left it.
abbrev pub HasEnded : Step → Type 0
HasEnded (going m) = ⊥
HasEnded _ = Unit

elapsed-length : (interval : ℕ) (rs : List Round) → elapsed interval rs ≡ length rs * interval
unfolding elapsed
elapsed-length interval [] = omega arith
elapsed-length interval (r ∷ rs) = omega (arith, elapsed-length interval rs)

-- A loop that has forwarded a signal, with the deadline one grace later than `start`, has ended
-- after more rounds than fit into the grace and one interval, if the first round checks its clock
-- no earlier than `start` and each other round at least the interval after the one before. It
-- bounds the number of rounds, not the time that a round or a kill takes.
pub run-HasEnded :
    (page_size grace interval start signal : ℕ) (rs : List Round) (m : Monitor)
    → m.forwarded_signal ≡ some signal
    → m.termination_deadline ≡ some (start + grace)
    → IsSpaced interval start rs
    → grace + interval < length rs * interval
    → HasEnded (run page_size grace rs m)
run-HasEnded page_size grace interval start signal rs m f u s h =
    finished (run page_size grace rs m) (
      run-Within page_size grace interval (start + grace) start rs m
        (record { signal = signal; forwarded = f; until = u }) s (omega arith))
  where
    finished :
        (o : Step) → Within (start + elapsed interval rs) (start + grace + interval) o → HasEnded o
    finished (going n) w = absurd (omega (arith, w, h, elapsed-length interval rs))
    finished (ended n) w = tt
    finished (raised n x) w = tt

-- The loop goes on.
abbrev pub IsGoing : Step → Type 0
IsGoing (going m) = Unit
IsGoing _ = ⊥

-- Every round checks its clock before the deadline.
abbrev pub AreBefore : ℕ → List Round → Type 0
AreBefore deadline rs = All (λ r. r.check_time < deadline) rs

then_run-AreBefore :
    (deadline : ℕ) (r : Round) (rs : List Round) (o : Step) (next : Monitor → Step)
    → Goes deadline r.check_time o
    → ((m : Monitor) → IsEnding deadline m → IsGoing (next m) → AreBefore deadline rs)
    → IsGoing (then_run o next)
    → AreBefore deadline (r ∷ rs)
then_run-AreBefore deadline r rs (going m) next g k h = (g.0, k m g.1 h)
then_run-AreBefore deadline r rs (ended m) next g k h = absurd h
then_run-AreBefore deadline r rs (raised m e) next g k h = absurd h

run_ending-AreBefore :
    (page_size grace deadline : ℕ) (rs : List Round) (m : Monitor)
    → IsEnding deadline m
    → IsGoing (run page_size grace rs m)
    → AreBefore deadline rs
unfolding run
run_ending-AreBefore page_size grace deadline [] m i h = tt
run_ending-AreBefore page_size grace deadline (r ∷ rs) m i h =
    then_run-AreBefore deadline r rs (step page_size grace r m) (run page_size grace rs)
      (step-Goes page_size grace deadline r m i) (run_ending-AreBefore page_size grace deadline rs)
      h

-- If a loop that has forwarded a signal still goes on after some rounds, then each of them checked
-- its clock before the termination deadline.
pub run-AreBefore :
    (page_size grace deadline signal : ℕ) (rs : List Round) (m : Monitor)
    → m.forwarded_signal ≡ some signal
    → m.termination_deadline ≡ some deadline
    → IsGoing (run page_size grace rs m)
    → AreBefore deadline rs
run-AreBefore page_size grace deadline signal rs m f u h =
    run_ending-AreBefore page_size grace deadline rs m
      (record { signal = signal; forwarded = f; until = u }) h
