-- ===== src/Wheels/Select.antt =====
-- scripts/select-wheel.py: the environment, the selection of one artifact and where its wheel is.
-- The host, `urllib.parse` and the files beside the manifest are parameters.
pub mod Exact
pub mod Sound
use runpod_sageattention.Base.{
  ℕ, String, ◌<>◌, str_eq, Bool, true, false, not, ◌&&◌, ◌||◌, Option, none, some, List, [], ◌∷◌,
  ◌==◌, leb, map, any, all, length, is_nil, if◌then◌else◌,
}
use Prim.Native.Char.{code}
use runpod_sageattention.Base.Int.{pos}
use runpod_sageattention.Base.Text.{codes, eq_codes, is_digit, lower_code, split_on}
use runpod_sageattention.Base.Print.{show_ℕ}
use runpod_sageattention.Base.Sorting.{by_key, sort}
use runpod_sageattention.Json.{
  Json, Items, Fields, null, bool, int, float, str, arr, obj, nil, item, end, field, get, is_str,
}
use runpod_sageattention.Json.Equality.{is_number, has_key}
use runpod_sageattention.Job.Failure.{
  Result, ok, err, Failure, selection_error, other_error, raise_if, ◌>>=◌, ◌>>◌,
}
use runpod_sageattention.Job.Spec.{contains}
use runpod_sageattention.Wheels.Asset.{
  as_dict, items_list, nonempty_list, path_name, is_wheel_name, wheel_name, text_order,
}

pub record Environment : Type 0 where
  pub python_tag : String
  pub abi_tag : String
  pub platform_tag : String
  pub torch_version : String
  pub torch_cuda_version : String
  pub gpu_capabilities : List String

-- What `import torch` gives: `torch.version.cuda`, and the capabilities of the devices where
-- `torch.cuda.is_available()`.
pub record Torch : Type 0 where
  pub version : String
  pub cuda : Option String
  pub available : Bool
  pub capabilities : List (ℕ × ℕ)

-- What the interpreter says of itself and of its machine; `torch` is `none` where it cannot be imported.
pub record Host : Type 0 where
  pub implementation : String
  pub system : String
  pub machine : String
  pub major : ℕ
  pub minor : ℕ
  pub platform : String
  pub torch : Option Torch

abbrev select : {A : Type 0} → String → Option A → Result A
select text none = err (selection_error text)
select text (some a) = ok a

-- `text.replace("-", "_").replace(".", "_")`
unfoldable pub tag_text : String → String
tag_text String.[] = ""
tag_text (String.◌∷◌ c s) =
    let rest = tag_text s in
    if (code c == b'-') || (code c == b'.') then "_" <> rest else String.◌∷◌ c rest

-- a set, by the last of equal texts
unfoldable pub distinct : List String → List String
distinct [] = []
distinct (x ∷ xs) = let rest = distinct xs in if contains x xs then rest else x ∷ rest

abbrev capability : ℕ × ℕ → String
unfolding show_ℕ
capability (major, minor) = show_ℕ major <> ("." <> show_ℕ minor)

unfoldable pub visible_capabilities : Torch → List String
unfolding distinct sort capability
visible_capabilities torch =
    if torch.available
    then sort (by_key codes text_order.strict).less (distinct (map capability torch.capabilities))
    else []

abbrev is_supported_machine : String → Bool
is_supported_machine machine =
    let lowered = map lower_code (codes machine) in
    eq_codes lowered (codes "x86_64") || eq_codes lowered (codes "amd64")

abbrev cuda_text : Option String → Option String
cuda_text none = none
cuda_text (some text) = if str_eq text "" then none else some text

-- `detect_environment`
unfoldable pub detect_environment : Host → Result Environment
unfolding tag_text visible_capabilities show_ℕ lower_code
detect_environment host = do
  raise_if (not (str_eq host.implementation "cpython"))
      (selection_error "Only CPython is supported")
  raise_if (not (str_eq host.system "Linux") || not (is_supported_machine host.machine))
      (selection_error "Only Linux x86_64 is supported")
  torch ← select "Cannot detect installed torch" host.torch
  cuda ← select "Installed torch is not a CUDA build" (cuda_text torch.cuda)
  let tag = "cp" <> (show_ℕ host.major <> show_ℕ host.minor)
  ok (record {
    python_tag = tag;
    abi_tag = tag;
    platform_tag = tag_text host.platform;
    torch_version = torch.version;
    torch_cuda_version = cuda;
    gpu_capabilities = visible_capabilities torch;
  })

-- `load_manifest`, as the list of artifacts
unfoldable pub load_manifest : Json → Result (List Json)
unfolding as_dict
load_manifest document = do
  manifest ← as_dict document
  raise_if (not (is_number (get "schema_version" manifest) (pos 1)))
      (selection_error "Unsupported manifest schema")
  select "Manifest contains no artifacts" (nonempty_list (get "artifacts" manifest))

-- `all(artifact.get(field) == expected ...)`
unfoldable pub is_match : Environment → Fields → Bool
is_match e artifact =
    is_str (get "python_tag" artifact) e.python_tag
    && (is_str (get "abi_tag" artifact) e.abi_tag
        && (is_str (get "platform_tag" artifact) e.platform_tag
            && (is_str (get "torch_version" artifact) e.torch_version
                && (is_str (get "torch_cuda_version" artifact) e.torch_cuda_version
                    && is_str (get "cuda_version" artifact) e.torch_cuda_version))))

abbrev keep : Bool → Fields → List Fields → List Fields
keep true f fs = f ∷ fs
keep false f fs = fs

unfoldable pub matches : Environment → List Json → Result (List Fields)
unfolding as_dict is_match
matches e [] = ok []
matches e (a ∷ rest) = do
  artifact ← as_dict a
  found ← matches e rest
  ok (keep (is_match e artifact) artifact found)

abbrev single : List Fields → Option Fields
single (f ∷ []) = some f
single _ = none

unfoldable pub chars : String → List String
chars String.[] = []
chars (String.◌∷◌ c s) = String.◌∷◌ c "" ∷ chars s

abbrev pub keys : Fields → List String
keys end = []
keys (field k v fs) = k ∷ keys fs

abbrev unhashable : Result (List String)
unhashable = err (other_error "TypeError")

-- The texts of `set(values)`.
unfoldable pub text_set : List Json → Result (List String)
text_set [] = ok []
text_set (str s ∷ vs) = do found ← text_set vs; ok (s ∷ found)
text_set (arr ws ∷ vs) = unhashable
text_set (obj fs ∷ vs) = unhashable
text_set (v ∷ vs) = text_set vs

unfoldable pub set_of : Json → Result (List String)
unfolding text_set chars
set_of (arr vs) = text_set (items_list vs)
set_of (str s) = ok (chars s)
set_of (obj fs) = ok (keys fs)
set_of _ = unhashable

-- `selected.get("supported_compute_capabilities", [])`, as a set
unfoldable pub supported_capabilities : Fields → Result (List String)
unfolding set_of
supported_capabilities artifact =
    if has_key "supported_compute_capabilities" artifact
    then set_of (get "supported_compute_capabilities" artifact)
    else ok []

unfoldable pub is_hex : ℕ → Bool
is_hex c = is_digit c || (leb b'a' c && leb c b'f')

-- `SHA256_RE.fullmatch`
unfoldable pub is_digest : Json → Bool
unfolding is_hex is_digit
is_digest (str s) = (length (codes s) == 64) && all is_hex (codes s)
is_digest _ = false

abbrev is_some_name : Option String → Bool
is_some_name none = false
is_some_name (some s) = true

-- `select_artifact`
unfoldable pub select_artifact : List Json → Environment → Result Fields
unfolding matches supported_capabilities is_digest wheel_name
select_artifact artifacts environment = do
  found ← matches environment artifacts
  selected ← select "Exact environment match must resolve to one wheel" (single found)
  supported ← supported_capabilities selected
  raise_if (any (λ c. not (contains c supported)) environment.gpu_capabilities)
      (selection_error "Selected wheel does not support visible GPU capabilities")
  raise_if (not (is_digest (get "sha256" selected)))
      (selection_error "Selected artifact has no valid SHA-256")
  raise_if (not (is_some_name (wheel_name (get "asset" selected))))
      (selection_error "Unsafe or invalid wheel asset name")
  ok selected
