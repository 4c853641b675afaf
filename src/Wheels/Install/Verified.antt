-- ===== src/Wheels/Install/Verified.antt =====
-- What a run of scripts/select-wheel.py hands to `pip`.
use runpod_sageattention.Base.{
  String, Bool, true, false, not, ◌&&◌, if◌then◌else◌, ◌≡◌, ◌⊎◌, inl, inr, refl, ap, ◌∙◌, none,
  some, List, [], All, All-append, Bool-cases,
}
use runpod_sageattention.Json.{Json, Fields, str, get}
use runpod_sageattention.Job.Failure.{Result, Failure, ok, err}
use runpod_sageattention.Wheels.Locate.{Location}
use runpod_sageattention.Wheels.Store.{Files, Outcome}
use runpod_sageattention.Wheels.Store.Safe.{IsSafe, materialize-IsSafe}
use runpod_sageattention.Wheels.Install.{
  Args, Action, install_wheel, Run, World, report, install_if, into_directory, into_temporary, act,
  act_on, selected, main, text_of,
}

Result-cases : {A : Type 0} (r : Result A) → ((a : A) × (r ≡ ok a)) ⊎ ((e : Failure) × (r ≡ err e))
Result-cases (ok a) = inl (a, refl)
Result-cases (err e) = inr (e, refl)

-- The content that is installed is there and has the digest.
abbrev pub IsVerifiedFor : {C : Type 0} → (C → String) → Json → Action C → Type 0
IsVerifiedFor digest expected (install_wheel path installed) =
    (c : _) × (installed ≡ some c) × (expected ≡ str (digest c))
IsVerifiedFor digest expected _ = Unit

module _ {C : Type 0} (w : World C) (args : Args) (artifact : Fields) (location : Location) where
  report-All : All (IsVerifiedFor w.digest (get "sha256" artifact)) (report args artifact location)
  report-All = elim (Bool-cases args.json) [
    | inl j ↦ rw j (tt, tt)
    | inr j ↦ elim (Bool-cases (not args.download_dir && not args.install)) [
      | inl b ↦ rw (j, b) (tt, tt)
      | inr b ↦ rw (j, b) tt
    ]
  ]

module _ {C : Type 0} (digest : C → String) (files : Files C) (asset : String)
    (expected : Json) where
  installed :
      (o : Outcome C)
      → IsSafe digest files asset expected o
      → (path : String) → o.returned ≡ ok path
      → IsVerifiedFor digest expected (install_wheel path (o.files path))
  installed o safe path e =
      let (same, found) = safe.returned path e in
      let (c, there, d) = found in (c, ap o.files same ∙ there, d)

  into_directory-All :
      (args : Args) (o : Outcome C) (before : List (Action C))
      → IsSafe digest files asset expected o
      → All (IsVerifiedFor digest expected) before
      → All (IsVerifiedFor digest expected) (into_directory args o before).actions
  unfolding into_directory
  into_directory-All args o before safe b = elim (Result-cases o.returned) [
    | inl (path, e) ↦ rw e (
        All-append (IsVerifiedFor digest expected) before _ b
          (tt, optional (Bool-cases args.install) path e))
    | inr (f, e) ↦ rw e b
  ]
    where
      optional :
          (args.install ≡ true) ⊎ (args.install ≡ false)
          → (path : String) → o.returned ≡ ok path
          → All (IsVerifiedFor digest expected) (install_if args.install path o.files)
      optional (inl i) path e = rw i (installed o safe path e, tt)
      optional (inr i) path e = rw i tt

  into_temporary-All :
      (kept : Files C) (o : Outcome C) (before : List (Action C))
      → IsSafe digest files asset expected o
      → All (IsVerifiedFor digest expected) before
      → All (IsVerifiedFor digest expected) (into_temporary kept o before).actions
  unfolding into_temporary
  into_temporary-All kept o before safe b = elim (Result-cases o.returned) [
    | inl (path, e) ↦
        rw e (All-append (IsVerifiedFor digest expected) before _ b (installed o safe path e, tt))
    | inr (f, e) ↦ rw e b
  ]

either :
    {C : Type 0} (P : Action C → Type 0) (d i : Bool) (x y z : Run C)
    → All P x.actions
    → All P y.actions
    → All P z.actions
    → All P (if d then x else if i then y else z).actions
either P true i x y z p q r = p
either P false true x y z p q r = q
either P false false x y z p q r = r

module _ {C : Type 0} (w : World C) (args : Args) where
  act-All :
      (artifact : Fields) (location : Location)
      → All (IsVerifiedFor w.digest (get "sha256" artifact)) (act w args artifact location).actions
  unfolding act
  act-All artifact location =
      let expected = get "sha256" artifact in
      let asset = text_of (get "asset" artifact) in
      let before = report-All w args artifact location in
      let empty : Files C = λ name. none in
      either (IsVerifiedFor w.digest expected) args.download_dir args.install _ _ _
        (into_directory-All w.digest w.files asset expected args _ _
          (materialize-IsSafe w.digest w.files (w.fetch location) asset expected) before)
        (into_temporary-All w.digest empty asset expected w.files _ _
          (materialize-IsSafe w.digest empty (w.fetch_temporary location) asset expected) before)
        before

  -- Where nothing is selected, nothing is printed or installed and the destination stays. Where an
  -- artifact is selected, all that is installed is a file that is there and has its digest.
  pub main-IsVerifiedFor :
      ((e : Failure)
        → selected w args ≡ err e
        → ((main w args).actions ≡ []) × ((main w args).files ≡ w.files))
      × ((artifact : Fields) (location : Location)
          → selected w args ≡ ok (artifact, location)
          → All (IsVerifiedFor w.digest (get "sha256" artifact)) (main w args).actions)
  unfolding main act_on
  main-IsVerifiedFor =
      (λ e h. rw h (refl, refl), λ artifact location h. rw h (act-All artifact location))
