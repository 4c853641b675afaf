-- ===== src/Resources/Limit.antt =====
-- `CgroupLocation` and `_find_effective_limit` of tools/pod_resources.py.
pub mod Tightest
use mathlib.Core.Path.{subst}
use mathlib.Core.Option.{some-injective}
use runpod_sageattention.Base.{
  ℕ, ◌≤◌, ◌<◌, ◌≡◌, refl, sym, ap, ◌∙◌, ◌⊎◌, inl, inr, String, Bool, true, false, Option, none,
  some, List, [], ◌∷◌, ◌++◌, arith, leb, ltb, All, if◌then◌else◌, Bool-cases, Option-cases,
}
use runpod_sageattention.Resources.Files.{FilePath, Files, walk_ancestors, read_limit}

pub record CgroupLocation : Type 0 where
  pub version : ℕ
  pub membership_path : String
  pub mount_root : String
  pub mount_point : String
  pub current_dir : FilePath
  pub mount_dir : FilePath

-- `effective` and `source`
abbrev pub Found : Type 0
Found = Option ℕ × Option FilePath

abbrev pub is_tighter : ℕ → Option ℕ → Bool
is_tighter n none = true
is_tighter n (some e) = leb n e

abbrev pub take_limit : FilePath → Option ℕ → Found → Found
take_limit d none found = found
take_limit d (some n) (e, source) = if is_tighter n e then (some n, some d) else (e, source)

-- The loop over the directories.
unfoldable pub find_limit : Files → String → List FilePath → Found → Found
find_limit files name [] found = found
find_limit files name (d ∷ ds) found =
    find_limit files name ds (take_limit d (read_limit files (name ∷ d)) found)

abbrev pub host_bound : ℕ → Option ℕ
host_bound n = if ltb 0 n then some n else none

abbrev pub or_zero : Found → ℕ × Option FilePath
or_zero (none, source) = (0, source)
or_zero (some n, source) = (n, source)

-- `_find_effective_limit`
unfoldable pub find_effective_limit : Files → CgroupLocation → String → ℕ → ℕ × Option FilePath
unfolding find_limit
find_effective_limit files loc name host_limit = or_zero (
    find_limit files name (walk_ancestors loc.current_dir loc.mount_dir)
      (host_bound host_limit, none))
