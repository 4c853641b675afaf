-- ===== src/Json/Equality.antt =====
-- Python's `==` on JSON values: numbers of all three types by their value, objects without order.
use runpod_sageattention.Base.{
  ℕ, suc, String, ◌<>◌, str_eq, Bool, true, false, not, ◌&&◌, ◌||◌, ◌==◌,
}
use runpod_sageattention.Base.Int.{ℤ, pos, eqb_ℤ}
use runpod_sageattention.Base.Print.{show_ℤ}
use runpod_sageattention.Json.{
  Json, Items, Fields, null, bool, int, float, str, arr, obj, nil, item, end, field, get,
}

abbrev bool_number : Bool → ℤ
bool_number true = pos 1
bool_number false = pos 0

-- A float is the integer `z`, by the text of a whole float below 10^16.
unfoldable pub is_whole_float : String → ℤ → Bool
unfolding show_ℤ
is_whole_float s z = str_eq s (show_ℤ z <> ".0") || (str_eq s "-0.0" && eqb_ℤ z (pos 0))

-- `value == z` for an integer `z`
unfoldable pub is_number : Json → ℤ → Bool
unfolding is_whole_float
is_number (int n) z = eqb_ℤ n z
is_number (bool b) z = eqb_ℤ (bool_number b) z
is_number (float s) z = is_whole_float s z
is_number _ z = false

abbrev eq_bool : Bool → Bool → Bool
eq_bool true b = b
eq_bool false b = not b

-- two floats by their texts, where 0.0 is -0.0 and NaN is nothing
abbrev eq_float : String → String → Bool
eq_float s t =
    (str_eq s t && not (str_eq s "nan"))
    || ((str_eq s "0.0" && str_eq t "-0.0") || (str_eq s "-0.0" && str_eq t "0.0"))

abbrev number_eq : Json → Json → Bool
unfolding is_number
number_eq (float s) (float t) = eq_float s t
number_eq v (int z) = is_number v z
number_eq v (bool b) = is_number v (bool_number b)
number_eq (int z) (float t) = is_number (float t) z
number_eq (bool b) (float t) = is_number (float t) (bool_number b)
number_eq _ _ = false

unfoldable pub has_key : String → Fields → Bool
has_key k end = false
has_key k (field j v fs) = str_eq j k || has_key k fs

unfoldable pub size : Fields → ℕ
size end = 0
size (field k v fs) = suc (size fs)

unfoldable mutual
  unfolding has_key size get number_eq

  -- `a == b`
  pub eq_json : Json → Json → Bool
  eq_json null null = true
  eq_json (str s) (str t) = str_eq s t
  eq_json (arr vs) (arr ws) = eq_items vs ws
  eq_json (obj fs) (obj gs) = (size fs == size gs) && within fs gs
  eq_json (bool b) w = number_eq (bool b) w
  eq_json (int z) w = number_eq (int z) w
  eq_json (float s) w = number_eq (float s) w
  eq_json _ _ = false

  pub eq_items : Items → Items → Bool
  eq_items nil nil = true
  eq_items (item v vs) (item w ws) = eq_json v w && eq_items vs ws
  eq_items _ _ = false

  -- every field of the first stands in the second
  pub within : Fields → Fields → Bool
  within end gs = true
  within (field k v fs) gs = (has_key k gs && eq_json v (get k gs)) && within fs gs
