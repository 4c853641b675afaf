-- ===== src/Job/Assignment/Numbers.antt =====
-- `_finite_decimal`, `_integer` and `_memory_bytes` of tools/runpod_job.py. A finite Decimal is a
-- sign, digits and a power of ten; arithmetic on it is exact, as Python's is up to 28 digits.
use runpod_sageattention.Base.{
  ℕ, suc, ◌+◌, ◌-◌, ◌*◌, ◌/◌, ◌%◌, ◌^◌, String, Bool, true, false, ◌||◌, Option, none, some, [],
  ◌∷◌, ltb, leb, ◌==◌, if◌then◌else◌,
}
use runpod_sageattention.Base.Int.{ℤ, pos, negsuc, neg}
use runpod_sageattention.Base.Text.{Codes, codes, strip, is_digit, scan_digits}
use runpod_sageattention.Json.{Json, Fields, null, bool, int, float, str, arr, obj, get}

pub record Decimal : Type 0 where
  pub negative : Bool
  pub digits : ℕ
  -- the power of ten
  pub exponent : ℤ

-- the number that leading digits make, how many they are, and what follows them
unfoldable pub span_digits : ℕ → ℕ → Codes → ℕ × ℕ × Codes
unfolding is_digit
span_digits n k [] = (n, k, [])
span_digits n k (c ∷ s) =
    let more = span_digits (n * 10 + (c - b'0')) (suc k) s in
    if is_digit c then more else (n, k, c ∷ s)

-- `Decimal` drops underscores before it reads the text.
unfoldable pub drop_underscores : Codes → Codes
drop_underscores [] = []
drop_underscores (c ∷ s) = let rest = drop_underscores s in if c == b'_' then rest else c ∷ rest

-- a - b
abbrev minus : ℤ → ℕ → ℤ
minus (pos a) b = if leb b a then pos (a - b) else negsuc (b - a - 1)
minus (negsuc a) b = negsuc (a + b)

abbrev with_exponent : Bool → ℕ → ℕ → Option ℤ → Option Decimal
with_exponent sign n fraction none = none
with_exponent sign n fraction (some e) =
    some (record { negative = sign; digits = n; exponent = minus e fraction })

-- the digits after the `e`, all of the rest
abbrev plain : Codes → Option ℕ
unfolding scan_digits
plain s = scan_digits false 0 s

abbrev lift_pos : Option ℕ → Option ℤ
lift_pos none = none
lift_pos (some n) = some (pos n)

abbrev lift_neg : Option ℕ → Option ℤ
lift_neg none = none
lift_neg (some n) = some (neg n)

unfoldable pub exponent_part : Codes → Option ℤ
unfolding plain
exponent_part [] = some (pos 0)
exponent_part (e ∷ []) = none
exponent_part (e ∷ c ∷ s) =
    if (e == b'e') || (e == b'E')
    then (if c == b'-'
        then lift_neg (plain s)
        else if c == b'+'
        then lift_pos (plain s)
        else lift_pos (plain (c ∷ s)))
    else none

abbrev finish : Bool → ℕ → ℕ → ℕ → Codes → Option Decimal
finish sign n whole fraction rest =
    if whole + fraction == 0 then none else with_exponent sign n fraction (exponent_part rest)

unfoldable pub fraction_part : Bool → ℕ → ℕ → Codes → Option Decimal
unfolding span_digits exponent_part
fraction_part sign n whole [] = finish sign n whole 0 []
fraction_part sign n whole (c ∷ s) =
    if c == b'.'
    then (let (m, k, rest) = span_digits n 0 s in finish sign m whole k rest)
    else finish sign n whole 0 (c ∷ s)

unfoldable pub unsigned : Bool → Codes → Option Decimal
unfolding fraction_part span_digits
unsigned sign s = let (n, whole, rest) = span_digits 0 0 s in fraction_part sign n whole rest

unfoldable pub signed_decimal : Codes → Option Decimal
unfolding unsigned
signed_decimal [] = none
signed_decimal (c ∷ s) =
    if c == b'-'
    then unsigned true s
    else if c == b'+'
    then unsigned false s
    else unsigned false (c ∷ s)

-- `Decimal(text)` where that is finite; NaN, infinities and an InvalidOperation are `none`.
unfoldable pub parse_decimal : Codes → Option Decimal
unfolding signed_decimal drop_underscores strip
parse_decimal s = signed_decimal (drop_underscores (strip s))

abbrev of_ℤ : ℤ → Decimal
of_ℤ (pos n) = record { negative = false; digits = n; exponent = pos 0 }
of_ℤ (negsuc n) = record { negative = true; digits = suc n; exponent = pos 0 }

-- `_finite_decimal`: the text of a list or a dict is never a number.
unfoldable pub finite_decimal : Json → Option Decimal
unfolding parse_decimal
finite_decimal null = none
finite_decimal (bool b) = none
finite_decimal (int z) = some (of_ℤ z)
finite_decimal (float s) = parse_decimal (codes s)
finite_decimal (str s) = parse_decimal (codes s)
finite_decimal (arr items) = none
finite_decimal (obj fields) = none

-- the whole number that digits times a power of ten make, if they make one
unfoldable pub whole : ℕ → ℤ → Option ℕ
whole n (pos e) = some (n * 10 ^ e)
whole n (negsuc e) = if n % 10 ^ suc e == 0 then some (n / 10 ^ suc e) else none

abbrev signed_whole : Bool → Option ℕ → Option ℤ
signed_whole sign none = none
signed_whole true (some n) = some (neg n)
signed_whole false (some n) = some (pos n)

abbrev to_integer : Option Decimal → Option ℤ
to_integer none = none
to_integer (some d) = signed_whole d.negative (whole d.digits d.exponent)

-- `_integer`
unfoldable pub integer : Fields → String → Option ℤ
unfolding finite_decimal whole
integer details name = to_integer (finite_decimal (get name details))

-- ten to the ninth more
abbrev pub plus_nine : ℤ → ℤ
plus_nine (pos e) = pos (e + 9)
plus_nine (negsuc e) = if leb e 8 then pos (8 - e) else negsuc (e - 9)

unfoldable pub is_less : ℕ → ℤ → ℕ → Bool
is_less n (pos e) k = ltb (n * 10 ^ e) k
is_less n (negsuc e) k = ltb n (k * 10 ^ suc e)

-- `value < bound`, for a value that is not negative
unfoldable pub is_below : Decimal → ℤ → Bool
unfolding is_less
is_below d (negsuc k) = false
is_below d (pos k) = is_less d.digits d.exponent k

abbrev pub with_bytes : Decimal → Option ℕ → Option (Decimal × ℕ)
with_bytes d none = none
with_bytes d (some bytes) = some (d, bytes)

abbrev pub positive_bytes : Option Decimal → Option (Decimal × ℕ)
positive_bytes none = none
positive_bytes (some d) =
    if d.negative || (d.digits == 0)
    then none
    else with_bytes d (whole d.digits (plus_nine d.exponent))

-- `_memory_bytes`: the decimal gigabytes, and the bytes if they are whole
unfoldable pub memory_bytes : Fields → String → Option (Decimal × ℕ)
unfolding finite_decimal whole
memory_bytes details name = positive_bytes (finite_decimal (get name details))
