-- ===== src/Resources/Receipt/Numeral.antt =====
-- `str` of a positive number is the canonical text that the receipt's reader accepts.
use native.Mathlib.Nat.{pow-suc}
use mathlib.Core.Path.{subst}
use Prim.Native.Char.{code}
use Prim.Native.String.append
use runpod_sageattention.Base.{
  ℕ, zero, suc, ◌+◌, ◌-◌, ◌*◌, ◌/◌, ◌%◌, ◌^◌, ◌≤◌, ◌<◌, ◌≡◌, inl, inr, refl, ap, ◌∙◌, String, ◌<>◌,
  true, false, some, [], ◌∷◌, ◌++◌, arith, ltb, length, any, length-append, Bool-cases, All,
}
use runpod_sageattention.Base.Text.{Codes, codes, is_digit}
use runpod_sageattention.Base.Print.{digit, show_digits, show_ℕ}
use runpod_sageattention.Resources.Receipt.{digits_value, canonical, before_newline}

pub codes-append : (s t : String) → codes (s <> t) ≡ codes s ++ codes t
codes-append String.[] t = ap codes (append.nil t)
codes-append (String.◌∷◌ c s) t =
    ap codes (append.cons c s t) ∙ ap (λ r. code c ∷ r) (codes-append s t)

only_nine : (d : ℕ) → suc (suc (suc (suc (suc (suc (suc (suc (suc d)))))))) < 10 → d ≡ 0
only_nine d h = omega arith

codes-digit : (d : ℕ) → d < 10 → codes (digit d) ≡ (48 + d) ∷ []
unfolding digit
codes-digit zero h = refl
codes-digit (suc zero) h = refl
codes-digit (suc (suc zero)) h = refl
codes-digit (suc (suc (suc zero))) h = refl
codes-digit (suc (suc (suc (suc zero)))) h = refl
codes-digit (suc (suc (suc (suc (suc zero))))) h = refl
codes-digit (suc (suc (suc (suc (suc (suc zero)))))) h = refl
codes-digit (suc (suc (suc (suc (suc (suc (suc zero))))))) h = refl
codes-digit (suc (suc (suc (suc (suc (suc (suc (suc zero)))))))) h = refl
codes-digit (suc (suc (suc (suc (suc (suc (suc (suc (suc d))))))))) h = rw (only_nine d h) refl

digits_value-append :
    (m k c : ℕ) (s : Codes)
    → digits_value m s ≡ some k
    → is_digit c ≡ true
    → digits_value m (s ++ c ∷ []) ≡ some (k * 10 + (c - 48))
unfolding digits_value
digits_value-append m k c [] e h = ground arith
digits_value-append m k c (x ∷ s) e h =
    ground (arith, digits_value-append (m * 10 + (x - 48)) k c s)

-- The digits of a positive number, the first of them not 0.
pub data IsNumeral (n : ℕ) : Codes → Type 0 where
  numeral :
      (c : ℕ) (s : Codes) → 49 ≤ c → c ≤ 57 → digits_value (c - 48) s ≡ some n → IsNumeral n (c ∷ s)

IsNumeral-append :
    (k c : ℕ) (s : Codes)
    → is_digit c ≡ true
    → IsNumeral k s
    → IsNumeral (k * 10 + (c - 48)) (s ++ c ∷ [])
IsNumeral-append k c s h (numeral x t low high e) =
    numeral x (t ++ c ∷ []) low high (digits_value-append (x - 48) k c t e h)

last_digit : (n : ℕ) → n / 10 * 10 + (48 + n % 10 - 48) ≡ n
last_digit n = omega arith

is_digit-digit : (d : ℕ) → d < 10 → is_digit (48 + d) ≡ true
unfolding is_digit
is_digit-digit d h = ground arith

quotient-less : (n fuel : ℕ) → ltb n 10 ≡ false → n < suc fuel → n / 10 < fuel
quotient-less n fuel e h = ground arith

quotient-positive : (n : ℕ) → ltb n 10 ≡ false → 0 < n / 10
quotient-positive n e = ground arith

pub show_digits-IsNumeral :
    (fuel n : ℕ) → n < fuel → 0 < n → IsNumeral n (codes (show_digits fuel n))
unfolding show_digits digits_value
show_digits-IsNumeral zero n h positive = absurd (omega (arith, h))
show_digits-IsNumeral (suc fuel) n h positive = elim (Bool-cases (ltb n 10)) [
  | inl e ↦
      rw (e, codes-digit n (ground (arith, e)))
        (numeral (48 + n) [] (omega (arith, positive)) (ground (arith, e)) (ap some (omega arith)))
  | inr e ↦
      rw
        (
          e,
          codes-append (show_digits fuel (n / 10)) (digit (n % 10)),
          codes-digit (n % 10) (omega arith),
        )
        (subst (λ m. IsNumeral m (codes (show_digits fuel (n / 10)) ++ (48 + n % 10) ∷ []))
          (last_digit n)
          (IsNumeral-append (n / 10) (48 + n % 10) (codes (show_digits fuel (n / 10)))
            (is_digit-digit (n % 10) (omega arith))
            (show_digits-IsNumeral fuel (n / 10) (quotient-less n fuel e h)
              (quotient-positive n e))))
]

pub show_ℕ-IsNumeral : (n : ℕ) → 0 < n → IsNumeral n (codes (show_ℕ n))
unfolding show_ℕ
show_ℕ-IsNumeral n positive = show_digits-IsNumeral (suc n) n (omega arith) positive

pub IsNumeral-canonical : (n : ℕ) (s : Codes) → IsNumeral n s → canonical s ≡ some n
unfolding canonical
IsNumeral-canonical n s (numeral c t low high e) = ground (arith, e)

pub before_newline-append : (s : Codes) → before_newline (s ++ 10 ∷ []) ≡ some s
unfolding before_newline
before_newline-append [] = refl
before_newline-append (c ∷ []) = refl
before_newline-append (c ∷ d ∷ s) = rw (before_newline-append (d ∷ s)) refl

-- A code point of a digit.
abbrev pub IsDigit : ℕ → Type 0
IsDigit c = (48 ≤ c) × (c ≤ 57)

digits_value-IsDigit : (m n : ℕ) (s : Codes) → digits_value m s ≡ some n → All IsDigit s
unfolding digits_value is_digit
digits_value-IsDigit m n [] e = tt
digits_value-IsDigit m n (c ∷ s) e = ground (arith, digits_value-IsDigit (m * 10 + (c - 48)) n s)

pub IsNumeral-IsDigit : (n : ℕ) (s : Codes) → IsNumeral n s → All IsDigit s
IsNumeral-IsDigit n s (numeral c t low high e) =
    ((omega (arith, low), high), digits_value-IsDigit (c - 48) n t e)

digits_value-ascii :
    (m n : ℕ) (s : Codes) → digits_value m s ≡ some n → any (λ c. ltb 127 c) s ≡ false
unfolding digits_value is_digit
digits_value-ascii m n [] e = refl
digits_value-ascii m n (c ∷ s) e = ground (arith, digits_value-ascii (m * 10 + (c - 48)) n s)

pub IsNumeral-ascii : (n : ℕ) (s : Codes) → IsNumeral n s → any (λ c. ltb 127 c) s ≡ false
IsNumeral-ascii n s (numeral c t low high e) = ground (arith, digits_value-ascii (c - 48) n t e)

quotient-power : (k n : ℕ) → n < 10 ^ suc (suc k) → n / 10 < 10 ^ suc k
quotient-power k n h = let p : n < 10 ^ suc k * 10 = rw (← pow-suc) h in omega (arith, p)

pub show_digits-length :
    (k fuel n : ℕ) → n < 10 ^ suc k → length (codes (show_digits fuel n)) ≤ suc k
unfolding show_digits
show_digits-length k zero n h = omega arith
show_digits-length k (suc fuel) n h = elim (Bool-cases (ltb n 10)) [
  | inl e ↦ rw (e, codes-digit n (ground (arith, e))) (omega arith)
  | inr e ↦
      rw
        (
          e,
          codes-append (show_digits fuel (n / 10)) (digit (n % 10)),
          codes-digit (n % 10) (omega arith),
          length-append (codes (show_digits fuel (n / 10))) ((48 + n % 10) ∷ []),
        )
        (longer k (λ j. show_digits-length j fuel (n / 10)) e h)
]
  where
    longer :
        (k : ℕ)
        → ((j : ℕ) → n / 10 < 10 ^ suc j → length (codes (show_digits fuel (n / 10))) ≤ suc j)
        → ltb n 10 ≡ false
        → n < 10 ^ suc k
        → length (codes (show_digits fuel (n / 10))) + 1 ≤ suc k
    longer zero shorter e h = ground (arith, h)
    longer (suc k) shorter e h = omega (arith, shorter k (quotient-power k n h))

pub any-append :
    (s : Codes) → any (λ c. ltb 127 c) s ≡ false → any (λ c. ltb 127 c) (s ++ 10 ∷ []) ≡ false
any-append [] h = refl
any-append (c ∷ s) h = ground (arith, any-append s)
