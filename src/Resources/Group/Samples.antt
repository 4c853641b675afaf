-- ===== src/Resources/Group/Samples.antt =====
-- tools/pod_resources.py: the samples that the supervisor keeps of a process group, and the exit
-- status that they give.
use runpod_sageattention.Base.{
  ℕ, suc, ◌+◌, ◌*◌, max, String, Bool, true, false, not, ◌||◌, Option, none, some, List, [], ◌∷◌,
  ◌++◌, ◌==◌, ltb, is_nil, if◌then◌else◌,
}
use runpod_sageattention.Base.Int.{ℤ, pos, negsuc, eqb_ℤ}
use runpod_sageattention.Job.Spec.{contains}
use runpod_sageattention.Resources.Group.{Details}

-- What the supervisor has sampled.
pub record Samples : Type 0 where
  pub sample_count : ℕ
  pub peak_bytes : ℕ
  pub maximum_process_count : ℕ
  pub start_bytes : Option ℕ
  pub end_bytes : Option ℕ
  pub leader_observed : Bool
  pub observed_compiler_executables : List String

abbrev pub no_samples : Samples
no_samples = record {
  sample_count = 0;
  peak_bytes = 0;
  maximum_process_count = 0;
  start_bytes = none;
  end_bytes = none;
  leader_observed = false;
  observed_compiler_executables = [];
}

abbrev pub first : Option ℕ → ℕ → Option ℕ
first none n = some n
first (some m) n = some m

abbrev pub union : List String → List String → List String
union names [] = names
union names (x ∷ xs) = union (if contains x names then names else names ++ x ∷ []) xs

-- `rss_bytes` of a snapshot
abbrev pub rss : ℕ → Details → ℕ
rss page_size d = d.pages * page_size

-- `process_count <= 0 or rss_bytes <= 0`, where no sample is made
abbrev pub is_empty : ℕ → Details → Bool
is_empty page_size d = (d.count == 0) || (rss page_size d == 0)

unfoldable pub add_sample : Bool → ℕ → Details → Samples → Bool × Samples
unfolding contains
add_sample true page_size d s = (false, s)
add_sample false page_size d s = (
  true,
  record {
    sample_count = suc s.sample_count;
    peak_bytes = max s.peak_bytes (rss page_size d);
    maximum_process_count = max s.maximum_process_count d.count;
    start_bytes = first s.start_bytes (rss page_size d);
    end_bytes = some (rss page_size d);
    leader_observed = s.leader_observed || d.leader;
    observed_compiler_executables = union s.observed_compiler_executables d.compilers;
  },
)

-- `sample` of `supervise_process_group_rss`, for a snapshot of the group
unfoldable pub sample : ℕ → Details → Samples → Bool × Samples
unfolding add_sample
sample page_size d s = add_sample (is_empty page_size d) page_size d s

-- The samples after a sequence of snapshots.
unfoldable pub sample_all : ℕ → List Details → Samples → Samples
unfolding sample
sample_all page_size [] s = s
sample_all page_size (d ∷ ds) s = sample_all page_size ds (sample page_size d s).1

-- `_shell_exit_status`
unfoldable pub shell_exit_status : ℤ → ℕ
shell_exit_status (pos n) = n
shell_exit_status (negsuc n) = 128 + suc n

-- The last `monitor_error`, for a leader that has returned.
unfoldable pub verdict : ℤ → Samples → Option String → Option String
verdict returncode s error =
    if not (eqb_ℤ returncode (pos 0))
    then error
    else if ltb s.sample_count 2
    then some "successful build produced fewer than two RSS samples"
    else if not s.leader_observed
    then some "successful build leader was never observed in sampled PGID"
    else if is_nil s.observed_compiler_executables
    then some "successful build exposed no compiler executable in sampled PGID"
    else error

abbrev exit_of : Option String → ℤ → ℕ
unfolding shell_exit_status
exit_of (some error) returncode = 70
exit_of none returncode = shell_exit_status returncode

-- What `supervise_process_group_rss` returns after the group has ended.
unfoldable pub finish : ℤ → Samples → Option String → ℕ
unfolding verdict exit_of
finish returncode s error = exit_of (verdict returncode s error) returncode
