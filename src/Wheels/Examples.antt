-- ===== src/Wheels/Examples.antt =====
-- Two manifests, their merge, a selection from it and an installation, with concrete values.
use mathlib.Core.List.{Permᴰ, Memᴰ}
use runpod_sageattention.Base.{
  ◌≡◌, refl, ◌↔◌, String, true, false, none, some, List, [], ◌∷◌, str_eq, ◌<>◌, AllPairs, All,
  if◌then◌else◌,
}
use runpod_sageattention.Base.Int.{pos}
use runpod_sageattention.Base.Sorting.{IsSorted, sort}
use runpod_sageattention.Json.{Json, Fields, null, int, str, arr, obj, nil, item, end, field, get}
use runpod_sageattention.Job.Failure.{ok, ◌>>=◌}
use runpod_sageattention.Json.Equality.{is_number, has_key}
use runpod_sageattention.Job.Spec.{contains}
use runpod_sageattention.Wheels.Asset.{is_wheel_name, wheel_name, nonempty_list}
use runpod_sageattention.Wheels.Merge.{
  Source, Entry, merge, entry_order, merged_manifest, checksum_payload,
}
use runpod_sageattention.Wheels.Merge.Entries.{Loads, Different}
use runpod_sageattention.Wheels.Merge.Batch.{merge_iff}
use runpod_sageattention.Wheels.Merge.Order.{merge-IsSorted, merge-perm}
use runpod_sageattention.Wheels.Merge.Verified.{HasWheel, merge-HasWheel}
use runpod_sageattention.Wheels.Select.{
  Environment, Host, is_match, supported_capabilities, is_digest, load_manifest, select_artifact,
}
use runpod_sageattention.Wheels.Select.Sound.{IsOnlyMatch, IsUsable, select_artifact-IsOnlyMatch}
use runpod_sageattention.Wheels.Select.Exact.{select-merge}
use runpod_sageattention.Wheels.Locate.{Urls, remote, local, resolve_from}
use runpod_sageattention.Wheels.Locate.Direct.{IsOffered, resolve_from_iff}
use runpod_sageattention.Wheels.Store.{whole, materialize}
use runpod_sageattention.Wheels.Store.Safe.{IsSafe, materialize-IsSafe}
use runpod_sageattention.Wheels.Install.{Args, World, print_path, install_wheel, main, selected}
use runpod_sageattention.Wheels.Install.Verified.{IsVerifiedFor, main-IsVerifiedFor}

abbrev sum_a : String
sum_a = "0123456789abcdef0123456789abcdef0123456789abcdef0123456789abcdef"

abbrev sum_b : String
sum_b = "ffffffffffffffffffffffffffffffffffffffffffffffffffffffffffffffff"

abbrev artifact : String → String → String → Fields
artifact asset sum torch = field "asset" (str asset) (
    field "sha256" (str sum) (
      field "size" (int (pos 3)) (
        field "python_tag" (str "cp312") (
          field "abi_tag" (str "cp312") (
            field "platform_tag" (str "linux_x86_64") (
              field "torch_version" (str torch) (
                field "torch_cuda_version" (str "12.8")
                  (field "cuda_version" (str "12.8") (field "build_id" (str torch) end)))))))))

abbrev a_artifact : Fields
a_artifact = artifact "a.whl" sum_a "2.8"

abbrev b_artifact : Fields
b_artifact = artifact "b.whl" sum_b "2.7"

abbrev manifest_of : Fields → Json
manifest_of f =
    obj (field "schema_version" (int (pos 1)) (field "artifacts" (arr (item (obj f) nil)) end))

abbrev source_of : String → String → Fields → Source
source_of asset sum f = record {
  manifest = manifest_of f;
  wheels = λ name. if str_eq name asset then some (record { sha256 = sum; size = 3 }) else none;
  checksums = none;
}

abbrev a_source : Source
a_source = source_of "a.whl" sum_a a_artifact

abbrev b_source : Source
b_source = source_of "b.whl" sum_b b_artifact

abbrev entry_of : String → String → Fields → Entry
entry_of asset torch f = record {
  artifact = f;
  asset = asset;
  runtime = "cp312" ∷ "cp312" ∷ "linux_x86_64" ∷ torch ∷ "12.8" ∷ [];
  build_id = torch;
}

abbrev entries : List Entry
entries = entry_of "b.whl" "2.7" b_artifact ∷ entry_of "a.whl" "2.8" a_artifact ∷ []

merged : merge (a_source ∷ b_source ∷ []) ≡ ok entries
unfolding merge is_number get is_wheel_name contains
merged = refl

checksums : checksum_payload entries ≡ sum_b <> ("  b.whl\n" <> (sum_a <> "  a.whl\n"))
unfolding checksum_payload get
checksums = refl

merge_iff_example : (merge (a_source ∷ b_source ∷ []) ≡ ok entries) ↔ (
    (ds : List Entry) × Loads (a_source ∷ b_source ∷ []) ds
    × AllPairs Different ds
    × (entries ≡ sort entry_order.less ds))
merge_iff_example = merge_iff (a_source ∷ b_source ∷ []) entries

merge-IsSorted_example : IsSorted entry_order.less entries
merge-IsSorted_example = merge-IsSorted (a_source ∷ b_source ∷ []) entries merged

merge-perm_example : merge (b_source ∷ a_source ∷ []) ≡ ok entries
merge-perm_example =
    merge-perm (a_source ∷ b_source ∷ []) (b_source ∷ a_source ∷ []) entries (Permᴰ.swap refl refl)
      merged

merge-HasWheel_example : All (HasWheel (a_source ∷ b_source ∷ [])) entries
merge-HasWheel_example = merge-HasWheel (a_source ∷ b_source ∷ []) entries merged

abbrev environment : Environment
environment = record {
  python_tag = "cp312";
  abi_tag = "cp312";
  platform_tag = "linux_x86_64";
  torch_version = "2.8";
  torch_cuda_version = "12.8";
  gpu_capabilities = [];
}

abbrev artifacts : List Json
artifacts = obj b_artifact ∷ obj a_artifact ∷ []

chosen : select_artifact artifacts environment ≡ ok a_artifact
unfolding select_artifact get has_key is_wheel_name
chosen = refl

select_artifact-IsOnlyMatch_example :
    IsOnlyMatch environment artifacts a_artifact × IsUsable environment a_artifact
select_artifact-IsOnlyMatch_example =
    select_artifact-IsOnlyMatch artifacts environment a_artifact chosen

a_matches : is_match environment a_artifact ≡ true
unfolding is_match get
a_matches = refl

a-IsUsable : IsUsable environment a_artifact
unfolding supported_capabilities is_digest wheel_name is_wheel_name get has_key
a-IsUsable = record {
  capabilities = [];
  supported = refl;
  covers = refl;
  digest = refl;
  name = refl;
}

select-merge_example :
    (load_manifest (obj (merged_manifest entries)) >>= λ found. select_artifact found environment)
    ≡ ok a_artifact
select-merge_example =
    select-merge (a_source ∷ b_source ∷ []) entries (entry_of "a.whl" "2.8" a_artifact) environment
      merged (Memᴰ.tail (Memᴰ.head refl)) a_matches a-IsUsable

abbrev urls : Urls
urls = record { scheme = λ u. "https"; path = λ u. u; unquote = λ u. u; quote = λ u. u }

resolve_from_iff_example :
    (resolve_from urls false (some "https://host/dir/") "a.whl" null
      ≡ ok (remote "https://host/dir/a.whl"))
    ↔ IsOffered urls false (some "https://host/dir/") "a.whl" null (remote "https://host/dir/a.whl")
resolve_from_iff_example =
    resolve_from_iff urls false (some "https://host/dir/") "a.whl" null
      (remote "https://host/dir/a.whl")

below_base :
    resolve_from urls false (some "https://host/dir/") "a.whl" null
    ≡ ok (remote "https://host/dir/a.whl")
unfolding resolve_from
below_base = refl

-- A content is a text that is its own digest.
materialize-IsSafe_example :
    IsSafe
      (λ (c : String). c)
      (λ name. none)
      "a.whl"
      (str sum_a)
      (materialize (λ (c : String). c) (λ name. none) (whole sum_a) "a.whl" (str sum_a))
materialize-IsSafe_example =
    materialize-IsSafe (λ (c : String). c) (λ name. none) (whole sum_a) "a.whl" (str sum_a)

abbrev host : Host
host = record {
  implementation = "cpython";
  system = "Linux";
  machine = "x86_64";
  major = 3;
  minor = 12;
  platform = "linux-x86_64";
  torch =
      some (record { version = "2.8"; cuda = some "12.8"; available = false; capabilities = [] });
}

abbrev world : World String
world = record {
  host = host;
  urls = urls;
  beside = λ name. true;
  manifest = obj (merged_manifest entries);
  digest = λ c. c;
  files = λ name. none;
  fetch = λ l. whole sum_a;
  fetch_temporary = λ l. whole sum_a;
}

abbrev args : Args
args = record {
  base_url = none;
  download_dir = true;
  install = true;
  json = false;
  python_tag = none;
  abi_tag = none;
  platform_tag = none;
  torch_version = none;
  torch_cuda_version = none;
}

world-selected : selected world args ≡ ok (a_artifact, local "a.whl")
unfolding selected merged_manifest get has_key is_wheel_name is_number nonempty_list
world-selected = refl

main-IsVerifiedFor_example :
    All (IsVerifiedFor (λ (c : String). c) (get "sha256" a_artifact)) (main world args).actions
main-IsVerifiedFor_example =
    (main-IsVerifiedFor world args).1 a_artifact (local "a.whl") world-selected

world_actions :
    (main world args).actions ≡ print_path "a.whl" ∷ install_wheel "a.whl" (some sum_a) ∷ []
unfolding main merged_manifest get has_key is_wheel_name is_number nonempty_list
world_actions = refl
