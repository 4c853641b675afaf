-- ===== src/Base/Print.antt =====
-- Texts that the program writes: `str` of an integer and `shlex.quote`.
use Prim.Native.Nat.{ℕ, zero, suc, ◌/◌, ◌%◌}
use Prim.Native.Char.{code}
use Prim.Native.String.{String, ◌++◌}
use mathlib.Core.Path.{◌≡◌, refl}
use mathlib.Core.Bool.{Bool, ◌&&◌, ◌||◌}
use runpod_sageattention.Base.Tests.{ltb, leb, ◌==◌, if◌then◌else◌}
use runpod_sageattention.Base.Lists.{all}
use runpod_sageattention.Base.Int.{ℤ, pos, negsuc}
use runpod_sageattention.Base.Text.{codes, is_digit}

unfoldable pub digit : ℕ → String
digit zero = "0"
digit (suc zero) = "1"
digit (suc (suc zero)) = "2"
digit (suc (suc (suc zero))) = "3"
digit (suc (suc (suc (suc zero)))) = "4"
digit (suc (suc (suc (suc (suc zero))))) = "5"
digit (suc (suc (suc (suc (suc (suc zero)))))) = "6"
digit (suc (suc (suc (suc (suc (suc (suc zero))))))) = "7"
digit (suc (suc (suc (suc (suc (suc (suc (suc zero)))))))) = "8"
digit _ = "9"

-- The decimal digits, by fuel: a number has fewer digits than its successor.
unfoldable pub show_digits : ℕ → ℕ → String
unfolding digit
show_digits zero n = ""
show_digits (suc fuel) n =
    let more = show_digits fuel (n / 10) ++ digit (n % 10) in if ltb n 10 then digit n else more

-- `str(n)`
unfoldable pub show_ℕ : ℕ → String
unfolding show_digits
show_ℕ n = show_digits (suc n) n

unfoldable pub show_ℤ : ℤ → String
unfolding show_ℕ
show_ℤ (pos n) = show_ℕ n
show_ℤ (negsuc n) = "-" ++ show_ℕ (suc n)

-- the characters that `shlex.quote` leaves bare: letters, digits and @%+=:,./-_
unfoldable pub is_shell_safe : ℕ → Bool
unfolding is_digit
is_shell_safe c =
    (leb b'a' c && leb c b'z')
    || ((leb b'A' c && leb c b'Z')
        || (is_digit c
            || ((c == b'@')
                || ((c == b'%')
                    || ((c == b'+')
                        || ((c == b'=')
                            || ((c == b':')
                                || ((c == b',') || (leb b'-' c && leb c b'/') || (c == b'_')))))))))

-- Each single quote ends the quoted text, stands in double quotes, and opens it again.
unfoldable pub escape_quotes : String → String
escape_quotes String.[] = ""
escape_quotes (String.◌∷◌ c s) =
    let rest = escape_quotes s in if code c == 39 then "'\"'\"'" ++ rest else String.◌∷◌ c rest

-- `shlex.quote`
unfoldable pub shell_quote : String → String
unfolding is_shell_safe escape_quotes
shell_quote String.[] = "''"
shell_quote (String.◌∷◌ c s) =
    if all is_shell_safe (codes (String.◌∷◌ c s))
    then String.◌∷◌ c s
    else "'" ++ (escape_quotes (String.◌∷◌ c s) ++ "'")

show_test : show_ℤ (negsuc 1203) ≡ "-1204"
unfolding show_ℤ
show_test = refl

quote_test : shell_quote "NVIDIA L4" ≡ "'NVIDIA L4'"
unfolding shell_quote
quote_test = refl
