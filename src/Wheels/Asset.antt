-- ===== src/Wheels/Asset.antt =====
-- The readers that the scripts on wheels share: dictionaries, asset names and texts.
use runpod_sageattention.Base.{
  String, str_eq, Bool, true, false, not, ◌&&◌, Option, none, some, List, [], ◌∷◌, ◌==◌, any,
  if◌then◌else◌,
}
use runpod_sageattention.Base.Text.{Codes, codes, eq_codes, split_on, ends_with}
use runpod_sageattention.Base.Sorting.{TotalOrder, nat_order, lex}
use runpod_sageattention.Json.{Json, Items, Fields, str, arr, obj, nil, item}
use runpod_sageattention.Job.Failure.{Result, ok, err, other_error}
use runpod_sageattention.Job.Spec.{kept_parts}

-- `value.get(...)` raises for what is no dictionary.
unfoldable pub as_dict : Json → Result Fields
as_dict (obj fs) = ok fs
as_dict _ = err (other_error "AttributeError")

abbrev pub items_list : Items → List Json
items_list nil = []
items_list (item v vs) = v ∷ items_list vs

-- `isinstance(value, list) and value`
unfoldable pub nonempty_list : Json → Option (List Json)
nonempty_list (arr (item v vs)) = some (v ∷ items_list vs)
nonempty_list _ = none

abbrev last_part : List Codes → Codes
last_part [] = []
last_part (p ∷ []) = p
last_part (p ∷ q ∷ ps) = last_part (q ∷ ps)

-- `Path(asset).name`
unfoldable pub path_name : String → Codes
unfolding kept_parts split_on
path_name asset = last_part (kept_parts (split_on b'/' (codes asset)))

-- A name without separators that ends in `.whl`.
unfoldable pub is_wheel_name : String → Bool
unfolding path_name ends_with
is_wheel_name asset =
    not (any (λ c. c == b'/') (codes asset))
    && (not (any (λ c. c == 92) (codes asset))
        && (eq_codes (path_name asset) (codes asset) && ends_with asset ".whl"))

abbrev checked_name : String → Option String
checked_name asset = if is_wheel_name asset then some asset else none

-- The asset name of an artifact, if it is safe.
unfoldable pub wheel_name : Json → Option String
wheel_name (str asset) = checked_name asset
wheel_name _ = none

-- `value` where it is a text that is not empty
unfoldable pub some_text : Json → Option String
some_text (str s) = if str_eq s "" then none else some s
some_text _ = none

-- the order of Python's texts, by code points
abbrev pub text_order : TotalOrder Codes
text_order = lex nat_order

unfoldable pub eq_texts : List String → List String → Bool
eq_texts [] [] = true
eq_texts (x ∷ xs) (y ∷ ys) = str_eq x y && eq_texts xs ys
eq_texts _ _ = false
