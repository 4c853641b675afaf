-- ===== src/Wheels/Merge.antt =====
-- scripts/merge-manifests.py: the check of one manifest beside its wheels, and the merge. What
-- `json.load`, `sha256_file`, `stat` and `read_text` return is in the record of a source.
pub mod Accepts
pub mod Batch
pub mod Entries
pub mod Order
pub mod Verified
use runpod_sageattention.Base.{
  ℕ, String, ◌<>◌, str_eq, Bool, true, false, not, ◌&&◌, ◌||◌, Option, none, some, List, [], ◌∷◌,
  ◌++◌, map, any, if◌then◌else◌,
}
use runpod_sageattention.Base.Int.{ℤ, pos}
use runpod_sageattention.Base.Text.{Codes, codes}
use runpod_sageattention.Base.Sorting.{StrictOrder, TotalOrder, lex, by_key, sort}
use runpod_sageattention.Json.{
  Json, Items, Fields, str, int, arr, obj, nil, item, end, field, get, is_str,
}
use runpod_sageattention.Json.Equality.{is_number}
use runpod_sageattention.Job.Failure.{Result, ok, err, Failure, merge_error, raise_if, ◌>>=◌, ◌>>◌}
use runpod_sageattention.Job.Spec.{contains}
use runpod_sageattention.Wheels.Asset.{
  as_dict, nonempty_list, wheel_name, some_text, text_order, eq_texts,
}

-- A wheel file by its digest and its size.
pub record Wheel : Type 0 where
  pub sha256 : String
  pub size : ℕ

-- A manifest with what stands beside it: `none` is a path that is no file, and the checksums are
-- the lines of SHA256SUMS.
pub record Source : Type 0 where
  pub manifest : Json
  pub wheels : String → Option Wheel
  pub checksums : Option (List String)

unfoldable pub required : {A : Type 0} → String → Option A → Result A
required text none = err (merge_error text)
required text (some a) = ok a

-- One round of the loop of `load_and_verify`, with its checksum line.
unfoldable pub verify_artifact : Source → Json → Result String
unfolding as_dict wheel_name required
verify_artifact source artifact = do
  fields ← as_dict artifact
  asset ← required "Unsafe asset name" (wheel_name (get "asset" fields))
  wheel ← required "Manifest asset is not beside the manifest" (source.wheels asset)
  raise_if (not (is_str (get "sha256" fields) wheel.sha256)) (merge_error "SHA-256 mismatch")
  raise_if (not (is_number (get "size" fields) (pos wheel.size))) (merge_error "Size mismatch")
  ok (wheel.sha256 <> ("  " <> asset))

unfoldable pub verify_artifacts : Source → List Json → Result (List String)
unfolding verify_artifact
verify_artifacts source [] = ok []
verify_artifacts source (a ∷ rest) = do
  line ← verify_artifact source a
  lines ← verify_artifacts source rest
  ok (line ∷ lines)

-- `sorted(lines)`
unfoldable pub sorted_lines : List String → List String
unfolding sort
sorted_lines lines = sort (by_key codes text_order.strict).less lines

unfoldable pub check_lines : Option (List String) → List String → Result (Unit {0})
unfolding sorted_lines eq_texts
check_lines none lines = ok tt
check_lines (some actual) lines =
    raise_if (not (eq_texts actual (sorted_lines lines)))
      (merge_error "Checksum file does not match the manifest")

-- `load_and_verify`
unfoldable pub load_and_verify : Source → Result (List Json)
unfolding verify_artifacts check_lines nonempty_list
load_and_verify source = do
  manifest ← as_dict source.manifest
  raise_if (not (is_number (get "schema_version" manifest) (pos 1)))
      (merge_error "Unsupported schema")
  artifacts ← required "No artifacts" (nonempty_list (get "artifacts" manifest))
  lines ← verify_artifacts source artifacts
  check_lines source.checksums lines
  ok artifacts

abbrev pub runtime_keys : List String
runtime_keys =
    "python_tag" ∷ "abi_tag" ∷ "platform_tag" ∷ "torch_version" ∷ "torch_cuda_version" ∷ []

abbrev pub both : Option String → Option (List String) → Option (List String)
both (some s) (some ss) = some (s ∷ ss)
both _ _ = none

unfoldable pub texts_of : Fields → List String → Option (List String)
unfolding some_text
texts_of fields [] = some []
texts_of fields (k ∷ ks) = both (some_text (get k fields)) (texts_of fields ks)

-- `runtime_tuple`
unfoldable pub runtime_tuple : Fields → Result (List String)
unfolding texts_of
runtime_tuple fields =
    required "Artifact has an incomplete compatibility tuple" (texts_of fields runtime_keys)

-- An artifact of the merged manifest with its keys.
pub record Entry : Type 0 where
  pub artifact : Fields
  pub asset : String
  pub runtime : List String
  pub build_id : String

-- The local variables of `merge`. The sets are lists of what was added.
pub record Merged : Type 0 where
  pub artifacts : List Entry
  pub assets : List String
  pub runtime_tuples : List (List String)
  pub build_ids : List String

abbrev pub empty : Merged
empty = record { artifacts = []; assets = []; runtime_tuples = []; build_ids = [] }

-- `artifact["asset"]`, which `load_and_verify` found to be a text
abbrev asset_text : Json → Result String
asset_text (str s) = ok s
asset_text _ = err (merge_error "asset is no text")

unfoldable pub add : Merged → Entry → Merged
add m e = record {
  artifacts = m.artifacts ++ e ∷ [];
  assets = m.assets ++ e.asset ∷ [];
  runtime_tuples = m.runtime_tuples ++ e.runtime ∷ [];
  build_ids = m.build_ids ++ e.build_id ∷ [];
}

-- One round of the inner loop of `merge`.
unfoldable pub add_artifact : Merged → Json → Result Merged
unfolding add runtime_tuple
add_artifact m artifact = do
  fields ← as_dict artifact
  asset ← asset_text (get "asset" fields)
  compatibility ← runtime_tuple fields
  raise_if (contains asset m.assets) (merge_error "Duplicate asset")
  raise_if (any (eq_texts compatibility) m.runtime_tuples)
      (merge_error "Ambiguous duplicate runtime tuple")
  build_id ← required "Missing or duplicate build ID" (some_text (get "build_id" fields))
  raise_if (contains build_id m.build_ids) (merge_error "Missing or duplicate build ID")
  ok (
      add m
        (record { artifact = fields; asset = asset; runtime = compatibility; build_id = build_id }))

unfoldable pub add_all : Merged → List Json → Result Merged
unfolding add_artifact
add_all m [] = ok m
add_all m (a ∷ rest) = do next ← add_artifact m a; add_all next rest

-- The loops of `merge`.
unfoldable pub gather : Merged → List Source → Result Merged
unfolding add_all load_and_verify
gather m [] = ok m
gather m (source ∷ sources) = do
  artifacts ← load_and_verify source
  next ← add_all m artifacts
  gather next sources

-- the key by which `merge` sorts
abbrev pub sort_key : Entry → List Codes
sort_key e = map codes (e.runtime ++ e.asset ∷ [])

abbrev pub entry_order : StrictOrder Entry
entry_order = by_key sort_key (lex text_order).strict

abbrev sort_merged : Merged → List Entry
sort_merged m = sort entry_order.less m.artifacts

unfoldable pub from_gather : Result Merged → Result (List Entry)
unfolding sort
from_gather (ok m) = ok (sort_merged m)
from_gather (err e) = err e

-- `merge`, as the entries of its manifest
unfoldable pub merge : List Source → Result (List Entry)
unfolding gather from_gather
merge sources = from_gather (gather empty sources)

unfoldable pub entry_items : List Entry → Items
entry_items [] = nil
entry_items (e ∷ es) = item (obj e.artifact) (entry_items es)

-- The manifest that `merge` returns.
unfoldable pub merged_manifest : List Entry → Fields
unfolding entry_items
merged_manifest es =
    field "artifacts" (arr (entry_items es)) (field "schema_version" (int (pos 1)) end)

abbrev text_of : Json → String
text_of (str s) = s
text_of _ = ""

-- The checksum payload of `main`: a line for each artifact. Its sha256 is the digest that
-- `load_and_verify` compared.
unfoldable pub checksum_payload : List Entry → String
checksum_payload [] = ""
checksum_payload (e ∷ es) =
    text_of (get "sha256" e.artifact) <> ("  " <> (e.asset <> ("\n" <> checksum_payload es)))
