-- ===== src/Base/Text.antt =====
-- Python text, as the code points of a native string: strip, upper, int and substring tests.
use Prim.Native.Nat.{ℕ, ◌+◌, ◌-◌, ◌*◌}
use Prim.Native.Char.{code}
use Prim.Native.String.{String}
use mathlib.Core.Path.{◌≡◌, refl}
use mathlib.Core.Bool.{Bool, true, false, ◌&&◌, ◌||◌}
use mathlib.Core.Option.{Option, none, some}
use mathlib.Core.List.{List, [], ◌∷◌, map, reverse}
use native.Mathlib.Omega.{arith}
use runpod_sageattention.Base.Tests.{leb, ◌==◌, if◌then◌else◌}
use runpod_sageattention.Base.Lists.{all}
use runpod_sageattention.Base.Int.{ℤ, pos, neg}

-- A text as its code points.
abbrev pub Codes : Type 0
Codes = List ℕ

abbrev pub codes : String → Codes
codes String.[] = []
codes (String.◌∷◌ c s) = code c ∷ codes s

abbrev pub eq_codes : Codes → Codes → Bool
eq_codes [] [] = true
eq_codes (x ∷ xs) (y ∷ ys) = (x == y) && eq_codes xs ys
eq_codes _ _ = false

pub eq_of_eq_codes : (s t : Codes) → eq_codes s t ≡ true → s ≡ t
eq_of_eq_codes [] [] h = refl
eq_of_eq_codes [] (y ∷ t) h = cc
eq_of_eq_codes (x ∷ s) [] h = cc
eq_of_eq_codes (x ∷ s) (y ∷ t) h = ground (arith, eq_of_eq_codes s t)

pub eq_codes_refl : (s : Codes) → eq_codes s s ≡ true
eq_codes_refl [] = refl
eq_codes_refl (x ∷ s) = ground (arith, eq_codes_refl s)

-- `str.isspace` of one character: the code points that `str.strip` and `str.split` remove.
unfoldable pub is_space : ℕ → Bool
is_space c =
    (leb 9 c && leb c 13)
    || ((leb 28 c && leb c 32)
        || ((c == 133)
            || ((c == 160)
                || ((c == 5760)
                    || ((leb 8192 c && leb c 8202)
                        || ((c == 8232)
                            || ((c == 8233) || ((c == 8239) || ((c == 8287) || (c == 12288))))))))))

unfoldable pub strip_left : Codes → Codes
unfolding is_space
strip_left [] = []
strip_left (c ∷ s) = let rest = strip_left s in if is_space c then rest else c ∷ s

-- `str.strip()`
unfoldable pub strip : Codes → Codes
unfolding strip_left
strip s = reverse (strip_left (reverse (strip_left s)))

-- `not s.strip()`
unfoldable pub is_blank : String → Bool
unfolding is_space
is_blank s = all is_space (codes s)

-- `str.upper()` where it meets ASCII: dotless i and long s are the other single characters whose
-- upper case is one ASCII letter.
unfoldable pub upper_code : ℕ → ℕ
upper_code c =
    if leb b'a' c && leb c b'z'
    then c - 32
    else if c == 305
    then b'I'
    else if c == 383
    then b'S'
    else c

unfoldable pub upper : String → Codes
unfolding upper_code
upper s = map upper_code (codes s)

unfoldable pub lower_code : ℕ → ℕ
lower_code c = if leb b'A' c && leb c b'Z' then c + 32 else c

unfoldable pub is_digit : ℕ → Bool
is_digit c = leb b'0' c && leb c b'9'

-- The digits of `int(s, 10)`, with single underscores between digits. The flag says that the
-- last character was a digit.
unfoldable pub scan_digits : Bool → ℕ → Codes → Option ℕ
unfolding is_digit
scan_digits after_digit n [] = if after_digit then some n else none
scan_digits after_digit n (c ∷ s) =
    let digit = scan_digits true (n * 10 + (c - b'0')) s in
    let underscore = scan_digits false n s in
    if is_digit c then digit else if (c == b'_') && after_digit then underscore else none

abbrev negate : Option ℕ → Option ℤ
negate none = none
negate (some n) = some (neg n)

abbrev positive : Option ℕ → Option ℤ
positive none = none
positive (some n) = some (pos n)

unfoldable pub signed : Codes → Option ℤ
unfolding scan_digits
signed [] = none
signed (c ∷ r) =
    if c == b'-'
    then negate (scan_digits false 0 r)
    else if c == b'+'
    then positive (scan_digits false 0 r)
    else positive (scan_digits false 0 (c ∷ r))

-- `int(s, 10)` on ASCII digits; `none` is the ValueError.
unfoldable pub int10 : Codes → Option ℤ
unfolding signed strip
int10 s = signed (strip s)

unfoldable pub is_prefix : Codes → Codes → Bool
is_prefix [] s = true
is_prefix (c ∷ p) [] = false
is_prefix (c ∷ p) (d ∷ s) = (c == d) && is_prefix p s

-- `needle in s`
unfoldable pub is_infix : Codes → Codes → Bool
unfolding is_prefix
is_infix needle [] = is_prefix needle []
is_infix needle (c ∷ s) = is_prefix needle (c ∷ s) || is_infix needle s

-- `s.endswith(suffix)`
unfoldable pub ends_with : String → String → Bool
unfolding is_prefix
ends_with s suffix = is_prefix (reverse (codes suffix)) (reverse (codes s))

-- `s.split(sep)` for one character.
abbrev pub extend : ℕ → List Codes → List Codes
extend c [] = (c ∷ []) ∷ []
extend c (w ∷ ws) = (c ∷ w) ∷ ws

unfoldable pub split_on : ℕ → Codes → List Codes
split_on sep [] = [] ∷ []
split_on sep (c ∷ s) = let rest = split_on sep s in if c == sep then [] ∷ rest else extend c rest

-- `s.split()`: the words between runs of white space. The flag says that a word is open.
abbrev keep_word : Codes → List Codes → List Codes
keep_word [] ws = ws
keep_word (c ∷ w) ws = (c ∷ w) ∷ ws

abbrev keep_words : List Codes → List Codes
keep_words [] = []
keep_words (w ∷ ws) = keep_word w (keep_words ws)

unfoldable pub break_spaces : Codes → List Codes
unfolding is_space
break_spaces [] = [] ∷ []
break_spaces (c ∷ s) = let rest = break_spaces s in if is_space c then [] ∷ rest else extend c rest

unfoldable pub words : Codes → List Codes
unfolding break_spaces
words s = keep_words (break_spaces s)

int10_tests : (int10 (codes " +1_0\n") ≡ some (pos 10)) × (int10 (codes "1__0") ≡ none)
unfolding int10
int10_tests = (refl, refl)

words_test : words (codes " max  100000\n") ≡ codes "max" ∷ codes "100000" ∷ []
unfolding words
words_test = refl
