-- ===== src/Wheels/Install.antt =====
-- `environment_from_args` and `main` of scripts/select-wheel.py, with what it prints and installs
-- as a list of actions.
pub mod Verified
use runpod_sageattention.Base.{
  String, str_eq, Bool, true, false, not, ◌&&◌, ◌||◌, Option, none, some, List, [], ◌∷◌, ◌++◌, any,
  all, if◌then◌else◌,
}
use runpod_sageattention.Json.{Json, Fields, str, get}
use runpod_sageattention.Job.Failure.{
  Result, ok, err, Failure, selection_error, raise_if, ◌>>=◌, ◌>>◌,
}
use runpod_sageattention.Wheels.Select.{
  Environment, Host, detect_environment, load_manifest, select_artifact,
}
use runpod_sageattention.Wheels.Locate.{Location, Urls, resolve_asset}
use runpod_sageattention.Wheels.Store.{Files, Fetch, Outcome, materialize}

pub record Args : Type 0 where
  pub base_url : Option String
  pub download_dir : Bool
  pub install : Bool
  pub json : Bool
  pub python_tag : Option String
  pub abi_tag : Option String
  pub platform_tag : Option String
  pub torch_version : Option String
  pub torch_cuda_version : Option String

abbrev is_given : Option String → Bool
is_given none = false
is_given (some s) = not (str_eq s "")

abbrev text_or_empty : Option String → String
text_or_empty none = ""
text_or_empty (some s) = s

abbrev overrides : Args → List (Option String)
overrides a =
    a.python_tag ∷ a.abi_tag ∷ a.platform_tag ∷ a.torch_version ∷ a.torch_cuda_version ∷ []

abbrev overridden : Args → Environment
overridden a = record {
  python_tag = text_or_empty a.python_tag;
  abi_tag = text_or_empty a.abi_tag;
  platform_tag = text_or_empty a.platform_tag;
  torch_version = text_or_empty a.torch_version;
  torch_cuda_version = text_or_empty a.torch_cuda_version;
  gpu_capabilities = [];
}

-- `environment_from_args`
unfoldable pub environment_from_args : Host → Args → Result Environment
unfolding detect_environment
environment_from_args host args =
    if not (any is_given (overrides args))
    then detect_environment host
    else if not (all is_given (overrides args))
    then err (selection_error "Environment overrides must all be supplied together")
    else ok (overridden args)

-- What `main` prints and installs. A path is a name in the destination; the content is what stands
-- there when `pip` reads it.
pub data Action (C : Type 0) : Type 0 where
  print_artifact : Fields → Action C
  print_location : Location → Action C
  print_path : String → Action C
  install_wheel : String → Option C → Action C

pub record Run (C : Type 0) : Type 0 where
  pub files : Files C
  pub actions : List (Action C)
  pub result : Result (Unit {0})

abbrev report : {C : Type 0} → Args → Fields → Location → List (Action C)
report args artifact location =
    if args.json
    then print_artifact artifact ∷ []
    else if not args.download_dir && not args.install
    then print_location location ∷ []
    else []

abbrev text_of : Json → String
text_of (str s) = s
text_of _ = ""

abbrev install_if : {C : Type 0} → Bool → String → Files C → List (Action C)
install_if wanted path files = if wanted then install_wheel path (files path) ∷ [] else []

-- the branch with a download directory
unfoldable pub into_directory : {C : Type 0} → Args → Outcome C → List (Action C) → Run C
into_directory args outcome before = elim outcome.returned [
  | ok path ↦ record {
    files = outcome.files;
    actions = before ++ print_path path ∷ install_if args.install path outcome.files;
    result = ok tt;
  }
  | err e ↦ record { files = outcome.files; actions = before; result = err e }
]

-- the branch with a temporary directory, whose files are gone afterwards
unfoldable pub into_temporary : {C : Type 0} → Files C → Outcome C → List (Action C) → Run C
into_temporary files outcome before = elim outcome.returned [
  | ok path ↦ record {
    files = files;
    actions = before ++ install_wheel path (outcome.files path) ∷ [];
    result = ok tt;
  }
  | err e ↦ record { files = files; actions = before; result = err e }
]

-- Everything of the world that a run reads. The fetch into the temporary directory is the second.
pub record World (C : Type 0) : Type 0 where
  pub host : Host
  pub urls : Urls
  pub beside : String → Bool
  pub manifest : Json
  pub digest : C → String
  pub files : Files C
  pub fetch : Location → Fetch C
  pub fetch_temporary : Location → Fetch C

module _ {C : Type 0} (w : World C) where
  -- The artifact that `main` selects, with its location.
  unfoldable pub selected : Args → Result (Fields × Location)
  unfolding environment_from_args load_manifest select_artifact resolve_asset
  selected args = do
    environment ← environment_from_args w.host args
    artifacts ← load_manifest w.manifest
    artifact ← select_artifact artifacts environment
    location ← resolve_asset w.urls w.beside args.base_url artifact
    ok (artifact, location)

  unfoldable pub act : Args → Fields → Location → Run C
  unfolding materialize into_directory into_temporary
  act args artifact location =
      let asset = text_of (get "asset" artifact) in
      let expected = get "sha256" artifact in
      let before = report args artifact location in
      if args.download_dir
      then into_directory args (materialize w.digest w.files (w.fetch location) asset expected)
          before
      else if args.install
      then into_temporary w.files
          (materialize w.digest (λ name. none) (w.fetch_temporary location) asset expected) before
      else record { files = w.files; actions = before; result = ok tt }

  abbrev act_on : Args → Result (Fields × Location) → Run C
  unfolding act
  act_on args (ok (artifact, location)) = act args artifact location
  act_on args (err e) = record { files = w.files; actions = []; result = err e }

  -- `main`
  unfoldable pub main : Args → Run C
  unfolding selected act_on
  main args = act_on args (selected args)
