-- ===== src/Job/Spec/Valid.antt =====
-- What an accepted `JobSpec` guarantees.
use runpod_sageattention.Base.{
  ◌≤◌, ◌≡◌, refl, ◌≢◌, ◌↔◌, eq_iff, inl, inr, String, Bool, true, false, not, List, [], ◌∷◌, arith,
  length, All, any, is_nil, Bool-cases,
}
use runpod_sageattention.Base.Int.{pos, ◌≤ℤ◌}
use runpod_sageattention.Base.Text.{codes}
use runpod_sageattention.Job.Failure.{ok}
use runpod_sageattention.Job.Request
use runpod_sageattention.Job.Request.{is_gpu}
use runpod_sageattention.Job.Request.Valid
use runpod_sageattention.Job.Spec.{
  JobSpec, LocalFiles, contains, starts_with_gpu_id, is_absolute, is_root_parts, has_part,
  candidates, is_exact_id, has_duplicates, validate_candidates, validate_artifacts,
  validate_relative_remote_path, validate_remote_dir, posix_parts, is_below_work, is_build_job,
  validate,
}

-- No later element equals an earlier one.
abbrev pub AllDistinct : List String → Type 0
AllDistinct [] = Unit
AllDistinct (c ∷ cs) = All (λ d. d ≢ c) cs × AllDistinct cs

-- At most eight exact ids without repetition, the first of them the request's own.
pub record IsCandidateList (spec : JobSpec) : Type 0 where
  pub first : starts_with_gpu_id (candidates spec) spec.pod.gpu_id ≡ true
  pub bounded : length (candidates spec) ≤ 8
  pub exact : All (λ c. is_exact_id c ≡ true) (candidates spec)
  pub distinct : AllDistinct (candidates spec)

-- An artifact path that stays below the remote directory.
pub record IsSafeArtifact (path : String) : Type 0 where
  pub nonempty : codes path ≢ []
  pub relative : is_absolute path ≡ false
  pub no_parent : has_part (codes "..") (posix_parts path) ≡ false
  pub not_dot : path ≢ "."
  pub not_dot_slash : path ≢ "./"

pub record IsSafeRemoteDir (path : String) : Type 0 where
  pub absolute : is_absolute path ≡ true
  pub not_root : is_root_parts (posix_parts path) ≡ false
  pub no_parent : has_part (codes "..") (posix_parts path) ≡ false

pub record IsAcceptable (files : LocalFiles) (spec : JobSpec) : Type 0 where
  pub pod : Request.Valid.IsValid spec.pod
  pub gpu_candidates : is_gpu spec.pod ≡ true → IsCandidateList spec
  pub paid : spec.allow_paid_pod ≡ true
  pub repo : files.is_dir spec.repo_root ≡ true
  pub key : files.is_file spec.ssh_private_key ≡ true
  pub remote : IsSafeRemoteDir spec.remote_dir
  pub build_remote : is_build_job spec ≡ true → is_below_work (posix_parts spec.remote_dir) ≡ true
  pub commands : is_nil spec.commands ≡ false
  pub artifacts : All IsSafeArtifact spec.artifact_paths
  pub timeout : pos 1 ≤ℤ spec.hard_timeout_seconds
  pub grace : pos 60 ≤ℤ spec.terminate_grace_seconds

contains_iff : (c : String) (ds : List String) → (contains c ds ≡ false) ↔ All (λ d. d ≢ c) ds
unfolding contains
contains_iff c [] = (λ h. tt, λ h. refl)
contains_iff c (d ∷ ds) = (
  λ h. (λ e. ground (arith, eq_iff d c), (contains_iff c ds).0 (ground arith)),
  λ h. ground (arith, eq_iff d c, (contains_iff c ds).1 h.1),
)

has_duplicates_iff : (cs : List String) → (has_duplicates cs ≡ false) ↔ AllDistinct cs
unfolding has_duplicates
has_duplicates_iff [] = (λ h. tt, λ h. refl)
has_duplicates_iff (c ∷ cs) = (
  λ h. ((contains_iff c cs).0 (ground arith), (has_duplicates_iff cs).0 (ground arith)),
  λ h. ground (arith, (contains_iff c cs).1 h.0, (has_duplicates_iff cs).1 h.1),
)

any-not_iff :
    {A : Type 0} (p : A → Bool) (xs : List A)
    → (any (λ x. not (p x)) xs ≡ false) ↔ All (λ x. p x ≡ true) xs
any-not_iff p [] = (λ h. tt, λ h. refl)
any-not_iff p (x ∷ xs) = (
  λ h. (ground arith, (any-not_iff p xs).0 (ground arith)),
  λ h. ground (arith, h.0, (any-not_iff p xs).1 h.1),
)

validate_candidates_iff :
    (spec : JobSpec) → (validate_candidates spec ≡ ok tt) ↔ IsCandidateList spec
unfolding validate_candidates
validate_candidates_iff spec = (
  λ h. record {
    first = ground arith;
    bounded = ground arith;
    exact = (any-not_iff is_exact_id _).0 (ground arith);
    distinct = (has_duplicates_iff _).0 (ground arith);
  },
  λ h. ground (arith, (any-not_iff is_exact_id _).1 h.exact, (has_duplicates_iff _).1 h.distinct),
)

validate_relative_remote_path_iff :
    (path : String) → (validate_relative_remote_path path ≡ ok tt) ↔ IsSafeArtifact path
unfolding validate_relative_remote_path
validate_relative_remote_path_iff path = (
  λ h. ground (arith, eq_iff path ".", eq_iff path "./"),
  λ h. ground (arith, eq_iff path ".", eq_iff path "./", h.nonempty),
)

validate_artifacts_iff :
    (paths : List String) → (validate_artifacts paths ≡ ok tt) ↔ All IsSafeArtifact paths
unfolding validate_artifacts
validate_artifacts_iff [] = (λ h. tt, λ h. refl)
validate_artifacts_iff (path ∷ paths) = (
  λ h. (
    (validate_relative_remote_path_iff path).0 (ground arith),
    (validate_artifacts_iff paths).0 (ground arith),
  ),
  λ h.
      ground (
        arith,
        (validate_relative_remote_path_iff path).1 h.0,
        (validate_artifacts_iff paths).1 h.1,
      ),
)

validate_remote_dir_iff :
    (path : String) → (validate_remote_dir path ≡ ok tt) ↔ IsSafeRemoteDir path
unfolding validate_remote_dir
validate_remote_dir_iff path = (λ h. ground arith, λ h. ground arith)

validate_sound :
    (files : LocalFiles) (spec : JobSpec) → validate files spec ≡ ok tt → IsAcceptable files spec
unfolding validate
validate_sound files spec h = record {
  pod = (Request.Valid.validate-IsValid spec.pod).0 (ground arith);
  gpu_candidates = λ g. (validate_candidates_iff spec).0 (ground arith);
  paid = ground arith;
  repo = ground arith;
  key = ground arith;
  remote = (validate_remote_dir_iff spec.remote_dir).0 (ground arith);
  build_remote = λ b. ground arith;
  commands = ground arith;
  artifacts = (validate_artifacts_iff spec.artifact_paths).0 (ground arith);
  timeout = ground arith;
  grace = ground arith;
}

validate_complete :
    (files : LocalFiles) (spec : JobSpec) → IsAcceptable files spec → validate files spec ≡ ok tt
unfolding validate
validate_complete files spec h = elim (Bool-cases (is_gpu spec.pod)) [
  | inl g ↦ ground (
    arith,
    (Request.Valid.validate-IsValid spec.pod).1 h.pod,
    (validate_candidates_iff spec).1 (h.gpu_candidates g),
    (validate_remote_dir_iff spec.remote_dir).1 h.remote,
    (validate_artifacts_iff spec.artifact_paths).1 h.artifacts,
  )
  | inr g ↦ ground (
    arith,
    (Request.Valid.validate-IsValid spec.pod).1 h.pod,
    (validate_remote_dir_iff spec.remote_dir).1 h.remote,
    (validate_artifacts_iff spec.artifact_paths).1 h.artifacts,
  )
]

-- `JobSpec.validate` returns exactly for an acceptable job: a valid Pod request, for a GPU Pod a
-- list of at most eight exact and distinct candidates that begins with the request's own id, the
-- paid-Pod acknowledgement, an existing checkout and key, an absolute remote directory with no
-- `..` that is below /work for a build, a command, only relative artifact paths with no `..`, a
-- positive timeout, and a grace of 60 seconds.
pub validate-IsAcceptable :
    (files : LocalFiles) (spec : JobSpec) → (validate files spec ≡ ok tt) ↔ IsAcceptable files spec
validate-IsAcceptable files spec = (validate_sound files spec, validate_complete files spec)
