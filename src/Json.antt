-- ===== src/Json.antt =====
-- The values that `json.loads` returns. An object has each key once, as a Python dict has.
pub mod Equality
use runpod_sageattention.Base.{
  String, Bool, true, false, not, ◌||◌, Option, none, some, str_eq, if◌then◌else◌,
}
use runpod_sageattention.Base.Int.{ℤ, pos, eqb_ℤ}

mutual
  pub data Json : Type 0 where
    null : Json
    bool : Bool → Json
    int : ℤ → Json
    -- a float, by the text that `str` gives for it
    float : String → Json
    str : String → Json
    arr : Items → Json
    obj : Fields → Json

  pub data Items : Type 0 where
    nil : Items
    item : Json → Items → Items

  pub data Fields : Type 0 where
    end : Fields
    field : String → Json → Fields → Fields

-- `d.get(k)`, with None for a key that is not there
unfoldable pub get : String → Fields → Json
get k end = null
get k (field j v fs) = if str_eq j k then v else get k fs

-- `isinstance(value, Mapping)`
abbrev pub as_fields : Json → Option Fields
as_fields (obj fs) = some fs
as_fields _ = none

-- `isinstance(value, str)`
abbrev pub as_text : Json → Option String
as_text (str s) = some s
as_text _ = none

abbrev is_zero : ℤ → Bool
is_zero z = eqb_ℤ z (pos 0)

-- `bool(value)`
unfoldable pub truthy : Json → Bool
truthy null = false
truthy (bool b) = b
truthy (int z) = not (is_zero z)
truthy (float s) = not (str_eq s "0.0" || str_eq s "-0.0")
truthy (str s) = not (str_eq s "")
truthy (arr nil) = false
truthy (arr (item v vs)) = true
truthy (obj end) = false
truthy (obj (field k v fs)) = true

-- `a or b`
unfoldable pub or_else : Json → Json → Json
unfolding truthy
or_else a b = if truthy a then a else b

-- `value == text`
abbrev pub is_str : Json → String → Bool
is_str (str s) t = str_eq s t
is_str _ t = false
