-- ===== src/Job/Spec.antt =====
-- `JobSpec` of tools/runpod_job.py, its `validate`, and the path checks `_validate_remote_dir` and
-- `_validate_relative_remote_path`.
pub mod Valid
use runpod_sageattention.Base.{
  ℕ, String, Bool, true, false, not, ◌&&◌, ◌||◌, Option, none, some, List, [], ◌∷◌, leb, ltb, ◌==◌,
  str_eq, get_or, is_nil, any, length, if◌then◌else◌,
}
use runpod_sageattention.Base.Int.{ℤ, pos, leb_ℤ, ltb_ℤ}
use runpod_sageattention.Base.Text.{Codes, codes, eq_codes, strip, split_on}
use runpod_sageattention.Job.Failure.{Result, ok, err, refuse_if, ◌>>=◌, ◌>>◌}
use runpod_sageattention.Job.Request
use runpod_sageattention.Job.Request.{PodRequest, is_cpu, is_gpu, is_gpu_build}

pub record JobSpec : Type 0 where
  pub pod : PodRequest
  pub repo_root : String
  pub ssh_private_key : String
  pub remote_dir : String
  pub commands : List String
  pub artifact_paths : List String
  pub artifact_output : String
  pub gpu_id_candidates : List String
  pub hard_timeout_seconds : ℤ
  pub terminate_grace_seconds : ℤ
  -- milliseconds, where the source has float seconds
  pub poll_millis : ℕ
  pub allow_paid_pod : Bool

-- What `Path.is_dir` and `Path.is_file` answer.
pub record LocalFiles : Type 0 where
  pub is_dir : String → Bool
  pub is_file : String → Bool

-- `part in parts`
unfoldable pub has_part : Codes → List Codes → Bool
has_part part [] = false
has_part part (p ∷ parts) = eq_codes p part || has_part part parts

-- The components that `PurePosixPath` keeps: the empty ones and `.` go.
abbrev keeps_part : Codes → Bool
keeps_part p = not (is_nil p) && not (eq_codes p (codes "."))

unfoldable pub kept_parts : List Codes → List Codes
kept_parts [] = []
kept_parts (p ∷ ps) = let rest = kept_parts ps in if keeps_part p then p ∷ rest else rest

-- The root of a path: two slashes are a root of their own, as POSIX allows.
unfoldable pub root_parts : Codes → List Codes
root_parts [] = []
root_parts (a ∷ []) = if a == b'/' then codes "/" ∷ [] else []
root_parts (a ∷ b ∷ []) =
    if a == b'/' then (if b == b'/' then codes "//" ∷ [] else codes "/" ∷ []) else []
root_parts (a ∷ b ∷ c ∷ s) =
    if a == b'/'
    then (if (b == b'/') && not (c == b'/') then codes "//" ∷ [] else codes "/" ∷ [])
    else []

abbrev join_parts : List Codes → List Codes → List Codes
join_parts [] rest = rest
join_parts (r ∷ rs) rest = r ∷ join_parts rs rest

-- `PurePosixPath(path).parts`
unfoldable pub posix_parts : String → List Codes
unfolding kept_parts root_parts split_on
posix_parts path = join_parts (root_parts (codes path)) (kept_parts (split_on b'/' (codes path)))

-- `PurePosixPath(path).is_absolute()`
unfoldable pub is_absolute : String → Bool
unfolding root_parts
is_absolute path = not (is_nil (root_parts (codes path)))

-- `PurePosixPath(path) == PurePosixPath("/")`
unfoldable pub is_root_parts : List Codes → Bool
is_root_parts [] = false
is_root_parts (p ∷ []) = eq_codes p (codes "/")
is_root_parts (p ∷ q ∷ ps) = false

-- `_validate_remote_dir`
unfoldable pub validate_remote_dir : String → Result (Unit {0})
validate_remote_dir path =
    refuse_if
      (not (is_absolute path)
        || (is_root_parts (posix_parts path) || has_part (codes "..") (posix_parts path)))
      "remote_dir must be a safe absolute directory below /"

-- `_validate_relative_remote_path`
unfoldable pub validate_relative_remote_path : String → Result (Unit {0})
validate_relative_remote_path path =
    refuse_if
      (is_nil (codes path)
        || (is_absolute path
            || (has_part (codes "..") (posix_parts path) || (str_eq path "." || str_eq path "./"))))
      "unsafe relative artifact path"

unfoldable pub validate_artifacts : List String → Result (Unit {0})
validate_artifacts [] = ok tt
validate_artifacts (path ∷ paths) = validate_relative_remote_path path >> validate_artifacts paths

-- The candidates of a GPU job, in order.
unfoldable pub candidates : JobSpec → List String
candidates spec = elim spec.gpu_id_candidates [
  | [] ↦ get_or spec.pod.gpu_id "" ∷ []
  | c ∷ cs ↦ c ∷ cs
]

-- `candidate != self.pod.gpu_id` for an optional id
unfoldable pub is_gpu_id : String → Option String → Bool
is_gpu_id c none = false
is_gpu_id c (some g) = str_eq c g

abbrev starts_with_gpu_id : List String → Option String → Bool
starts_with_gpu_id [] g = false
starts_with_gpu_id (c ∷ cs) g = is_gpu_id c g

-- An exact GPU id: not empty, no outer white space, no line break and no comma.
unfoldable pub is_exact_id : String → Bool
unfolding strip
is_exact_id c =
    not (is_nil (codes c))
    && (eq_codes (codes c) (strip (codes c))
        && not (any (λ d. (d == 10) || ((d == 13) || (d == b','))) (codes c)))

unfoldable pub contains : String → List String → Bool
contains c [] = false
contains c (d ∷ ds) = str_eq d c || contains c ds

-- `len(set(candidates)) != len(candidates)`
unfoldable pub has_duplicates : List String → Bool
unfolding contains
has_duplicates [] = false
has_duplicates (c ∷ cs) = contains c cs || has_duplicates cs

unfoldable pub validate_candidates : JobSpec → Result (Unit {0})
unfolding candidates
validate_candidates spec = do
  refuse_if (not (starts_with_gpu_id (candidates spec) spec.pod.gpu_id))
      "the first gpu_id candidate must match the Pod request gpu_id"
  refuse_if (ltb 8 (length (candidates spec))) "at most 8 ordered gpu_id candidates are allowed"
  refuse_if (any (λ c. not (is_exact_id c)) (candidates spec))
      "gpu_id candidates must be exact non-empty single lines"
  refuse_if (has_duplicates (candidates spec)) "gpu_id candidates must not contain duplicates"

-- `len(remote_parts) < 3 or remote_parts[:2] != ("/", "work")`
unfoldable pub is_below_work : List Codes → Bool
is_below_work (a ∷ b ∷ c ∷ parts) = eq_codes a (codes "/") && eq_codes b (codes "work")
is_below_work _ = false

unfoldable pub is_build_job : JobSpec → Bool
is_build_job spec = is_cpu spec.pod || is_gpu_build spec.pod

-- `JobSpec.validate`
unfoldable pub validate : LocalFiles → JobSpec → Result (Unit {0})
validate files spec = do
  Request.validate spec.pod
  if is_gpu spec.pod then validate_candidates spec else ok tt
  refuse_if (not spec.allow_paid_pod) "paid Pod creation is disabled"
  refuse_if (not (files.is_dir spec.repo_root)) "repo root does not exist"
  refuse_if (not (files.is_file spec.ssh_private_key)) "SSH private key does not exist"
  validate_remote_dir spec.remote_dir
  refuse_if (is_build_job spec && not (is_below_work (posix_parts spec.remote_dir)))
      "build remote_dir must be a directory below /work"
  refuse_if (is_nil spec.commands) "at least one remote command is required"
  validate_artifacts spec.artifact_paths
  refuse_if (leb_ℤ spec.hard_timeout_seconds (pos 0)) "hard timeout must be positive"
  refuse_if (ltb_ℤ spec.terminate_grace_seconds (pos 60))
      "terminate grace must be at least 60 seconds"
