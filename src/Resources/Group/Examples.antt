-- ===== src/Resources/Group/Examples.antt =====
-- A build of two processes that is sampled, asked to end, and killed at its deadline.
use runpod_sageattention.Base.{
  ℕ, ◌≡◌, refl, ◌↔◌, String, true, false, none, some, List, [], ◌∷◌, length, filter_map, arith,
}
use runpod_sageattention.Base.Int.{pos, negsuc}
use runpod_sageattention.Job.Failure.{ok}
use runpod_sageattention.Resources.Group.{
  Process, Details, collect_process_group_details, member_pages, process_group_from_stat,
}
use runpod_sageattention.Resources.Group.Samples.{no_samples, sample_all, finish}
use runpod_sageattention.Resources.Group.Sum.{sum, AreCompilers, collect_process_group_details-sum}
use runpod_sageattention.Resources.Group.Sampled.{
  shown, maximum, head, last, IsSuccess, sample_all-summary, finish_iff,
}
use runpod_sageattention.Resources.Group.Watch.{Round, Monitor, run}
use runpod_sageattention.Resources.Group.Conclude.{Ending, conclude}
use runpod_sageattention.Resources.Group.Conclude.Clean.{IsClean, conclude-IsClean}
use runpod_sageattention.Resources.Group.Watch.Bounded.{
  HasEnded, IsGoing, AreBefore, run-HasEnded, run-AreBefore,
}

stat_test : process_group_from_stat "42 (a) b) S 1 41 41" ≡ some 41
unfolding process_group_from_stat
stat_test = refl

abbrev member : String → String → Process
member pid target = record {
  name = pid;
  stat = some "7 (make) S 1 41 41";
  statm = some "900 25 3";
  exe = some target;
}

abbrev listing : List Process
listing = member "41" "/bin/make" ∷ member "self" "/bin/sh" ∷ member "43" "/usr/bin/nvcc" ∷ []

abbrev details : Details
details = record { pages = 50; count = 2; leader = true; compilers = "nvcc" ∷ [] }

listed_details : collect_process_group_details 41 4096 (some 41) (some listing) ≡ ok details
unfolding collect_process_group_details
listed_details = refl

collect_process_group_details-sum_example :
    (details.pages ≡ sum (filter_map (member_pages 41) listing))
    × (details.count ≡ length (filter_map (member_pages 41) listing))
    × AreCompilers details.compilers
collect_process_group_details-sum_example =
    collect_process_group_details-sum 41 4096 (some 41) listing details listed_details

abbrev snapshots : List Details
snapshots = details ∷ details ∷ []

sample_all-summary_example :
    let kept = filter_map (shown 4096) snapshots in
    let s = sample_all 4096 snapshots no_samples in
    (s.sample_count ≡ length kept)
    × (s.peak_bytes ≡ maximum kept)
    × (s.start_bytes ≡ head kept)
    × (s.end_bytes ≡ last none kept)
sample_all-summary_example = sample_all-summary 4096 snapshots

finish_iff_example :
    (finish (pos 0) (sample_all 4096 snapshots no_samples) none ≡ 0)
    ↔ IsSuccess (pos 0) (sample_all 4096 snapshots no_samples) none
finish_iff_example = finish_iff (pos 0) (sample_all 4096 snapshots no_samples) none

finished : finish (pos 0) (sample_all 4096 snapshots no_samples) none ≡ 0
unfolding finish sample_all
finished = refl

abbrev round : ℕ → Round
round time = record {
  requested = some 15;
  forward_time = 0;
  polled = none;
  group_exists = true;
  check_time = time;
  killing = record { polled = none; waited = some (negsuc 8); remains = false };
  details = ok details;
  polled_after = none;
  exists_after = true;
}

abbrev rounds : List Round
rounds = round 0 ∷ round 100 ∷ round 200 ∷ round 300 ∷ []

abbrev asked : Monitor
asked = record {
  samples = no_samples;
  forwarded_signal = some 15;
  termination_deadline = some 200;
  child_returncode = none;
  forced_kill = false;
  monitor_error = none;
  signals = 15 ∷ [];
}

run-HasEnded_example : HasEnded (run 4096 200 rounds asked)
run-HasEnded_example =
    run-HasEnded 4096 200 100 0 15 rounds asked refl refl
      (omega arith, (omega arith, (omega arith, (omega arith, tt)))) (omega arith)

abbrev early_rounds : List Round
early_rounds = round 0 ∷ round 100 ∷ []

early_rounds-IsGoing : IsGoing (run 4096 0 early_rounds asked)
unfolding run
early_rounds-IsGoing = tt

run-AreBefore_example : AreBefore 200 early_rounds
run-AreBefore_example =
    run-AreBefore 4096 0 200 15 early_rounds asked refl refl early_rounds-IsGoing

abbrev monitored : Monitor
monitored = record asked {
  samples = sample_all 4096 snapshots no_samples;
  forwarded_signal = none;
  termination_deadline = none;
  child_returncode = some (pos 0);
  signals = [];
}

abbrev ending : Ending
ending = record {
  polled = some (pos 0);
  group_exists = false;
  termination = record {
    waiting = [];
    killing = record { polled = none; waited = none; remains = true };
  };
  waited = none;
  remains = false;
  last_termination = record {
    waiting = [];
    killing = record { polled = none; waited = none; remains = true };
  };
}

concluded : conclude ending monitored ≡ ok 0
unfolding conclude sample_all
concluded = refl

conclude-IsClean_example : IsClean ending monitored
conclude-IsClean_example = conclude-IsClean ending monitored concluded
