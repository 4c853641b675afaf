-- ===== src/Wheels/Locate.antt =====
-- `resolve_asset` of scripts/select-wheel.py: where the selected wheel is. `urllib.parse` and the
-- files beside the manifest are parameters.
pub mod Direct
use Prim.Native.Char.{code}
use runpod_sageattention.Base.{
  ℕ, String, ◌<>◌, str_eq, Bool, true, false, not, ◌&&◌, ◌||◌, Option, none, some, List, [], ◌∷◌,
  ◌==◌, map, any, ◌≡◌, ◌⊎◌, if◌then◌else◌, is_nil,
}
use runpod_sageattention.Base.Text.{Codes, codes, eq_codes, lower_code, split_on}
use runpod_sageattention.Json.{Json, Fields, null, str, get}
use runpod_sageattention.Job.Failure.{
  Result, ok, err, selection_error, other_error, raise_if, ◌>>=◌, ◌>>◌,
}
use runpod_sageattention.Wheels.Asset.{path_name}

-- `urlparse(url)` and the two quotings.
pub record Urls : Type 0 where
  pub scheme : String → String
  pub path : String → String
  pub unquote : String → String
  pub quote : String → String

-- A URL, or the file of that name beside the manifest.
pub data Location : Type 0 where
  remote local : String → Location

-- `part.lower()` where it meets ASCII: no other character has a lower case of one ASCII letter
-- that stands in the word "simple".
unfoldable pub has_simple_part : Urls → String → Bool
unfolding split_on lower_code
has_simple_part urls url =
    any (λ part. eq_codes (map lower_code part) (codes "simple"))
      (split_on b'/' (codes (urls.path url)))

-- `_reject_simple_index`
unfoldable pub reject_simple_index : Urls → String → Result (Unit {0})
unfolding has_simple_part
reject_simple_index urls url =
    raise_if (has_simple_part urls url) (selection_error "A package simple-index URL is forbidden")

abbrev is_https : Urls → String → Bool
is_https urls url = str_eq (urls.scheme url) "https"

-- the branch for `artifact["url"]`
unfoldable pub explicit_location : Urls → String → String → Result Location
unfolding reject_simple_index path_name
explicit_location urls asset url = do
  reject_simple_index urls url
  raise_if (not (is_https urls url)) (selection_error "Remote wheel URLs must use HTTPS")
  raise_if (not (eq_codes (path_name (urls.unquote (urls.path url))) (codes asset)))
      (selection_error "Artifact URL basename does not match its signed asset name")
  ok (remote url)

-- `base_url.rstrip("/")`
unfoldable pub strip_slashes : String → String
strip_slashes String.[] = ""
strip_slashes (String.◌∷◌ c s) =
    let rest = strip_slashes s in
    if (code c == b'/') && str_eq rest "" then "" else String.◌∷◌ c rest

-- the branch for `base_url`
unfoldable pub base_location : Urls → String → Option String → Result Location
unfolding reject_simple_index strip_slashes
base_location urls asset none =
    err (selection_error "Artifact is not local and no base URL was supplied")
base_location urls asset (some base) = do
  raise_if (str_eq base "") (selection_error "Artifact is not local and no base URL was supplied")
  reject_simple_index urls base
  raise_if (not (is_https urls base)) (selection_error "Remote release base URL must use HTTPS")
  ok (remote (strip_slashes base <> ("/" <> urls.quote asset)))

-- `resolve_asset`, for a Boolean that says whether the asset is a file beside the manifest
unfoldable pub resolve_from : Urls → Bool → Option String → String → Json → Result Location
unfolding explicit_location base_location
resolve_from urls is_local base asset null =
    if is_local then ok (local asset) else base_location urls asset base
resolve_from urls is_local base asset (str url) = explicit_location urls asset url
resolve_from urls is_local base asset _ = err (selection_error "Artifact URL must be a string")

abbrev asset_text : Json → Result String
asset_text (str s) = ok s
asset_text _ = err (other_error "TypeError")

unfoldable pub resolve_asset : Urls → (String → Bool) → Option String → Fields → Result Location
unfolding resolve_from
resolve_asset urls beside base artifact = do
  asset ← asset_text (get "asset" artifact)
  resolve_from urls (beside asset) base asset (get "url" artifact)
