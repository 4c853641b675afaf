-- ===== src/Resources/Receipt/Script.antt =====
-- How the shell reads the command that `_resource_receipt_prefix` of tools/runpod_job.py puts in
-- front of a build: what its printf writes into the file `$resource_receipt`, and where its mv moves
-- that file. The other commands of the script are not read.
use runpod_sageattention.Base.{
  ℕ, ◌<◌, ◌≡◌, inl, inr, refl, sym, ap, ◌∙◌, String, ◌<>◌, Option, none, some, [], ◌∷◌, ◌++◌, arith,
  ◌==◌, Bool-cases, if◌then◌else◌, All,
}
use runpod_sageattention.Base.Text.{Codes, codes}
use runpod_sageattention.Base.Print.{show_ℕ}
use runpod_sageattention.Job.Commands.{resource_receipt_prefix}
use runpod_sageattention.Job.Failure.{Result, ok, err}
use runpod_sageattention.Resources.Receipt.Numeral.{
  codes-append, IsNumeral-IsDigit, IsDigit, show_ℕ-IsNumeral,
}

abbrev first_of : Option Codes → Option Codes → Option Codes
first_of none o = o
first_of (some s) o = some s

-- The path of the receipt.
abbrev pub receipt_path : Codes
receipt_path = codes "/run/sageattention/verified-memory-bytes-v1"

-- The text after the pattern, where it starts with it.
abbrev without : Codes → Codes → Option Codes
without [] s = some s
without (p ∷ ps) [] = none
without (p ∷ ps) (c ∷ s) = if p == c then without ps s else none

-- The text after the first occurrence of the pattern.
abbrev after : Codes → Codes → Option Codes
after pattern [] = none
after pattern (c ∷ s) = first_of (without pattern (c ∷ s)) (after pattern s)

-- The text up to the first space or semicolon.
abbrev word : Codes → Codes
word [] = []
word (c ∷ s) = if (c == 32) then [] else if (c == 59) then [] else c ∷ word s

abbrev word_of : Option Codes → Option Codes
word_of none = none
word_of (some s) = some (word s)

-- The text after that word.
abbrev rest : Codes → Codes
rest [] = []
rest (c ∷ s) = if c == 32 then c ∷ s else if c == 59 then c ∷ s else rest s

abbrev line_if : Codes → Option Codes → Option Codes
line_if s none = none
line_if s (some t) = some (s ++ 10 ∷ [])

-- A word and a newline, where the word is followed by the redirection into the file.
abbrev line_of : Option Codes → Option Codes
line_of none = none
line_of (some s) = line_if (word s) (without (codes " > \"$resource_receipt\"; ") (rest s))

-- What the `printf '%s\n'` of a script writes into the file `$resource_receipt`: its operand and a
-- newline.
abbrev pub printed : String → Option Codes
printed script = line_of (after (codes "printf '%s\\n' ") (codes script))

-- Where a script moves that file.
abbrev pub moved_to : String → Option Codes
moved_to script = word_of (after (codes "mv -f -- \"$resource_receipt\" ") (codes script))

abbrev before_number : Codes
before_number =
    codes
      "install -d -m 0755 /run/sageattention; resource_receipt=$(mktemp /run/sageattention/.verified-memory-bytes-v1.XXXXXX); printf '%s\\n' "

after-printf : (s : Codes) → after (codes "printf '%s\\n' ") (before_number ++ s) ≡ some s
after-printf s = refl

after-mv :
    (s : Codes)
    → after (codes "mv -f -- \"$resource_receipt\" ") (before_number ++ s)
      ≡ after (codes "mv -f -- \"$resource_receipt\" ") s
after-mv s = refl

after-digits :
    (p : ℕ) (ps s t : Codes) → 57 < p → All IsDigit s → after (p ∷ ps) (s ++ t) ≡ after (p ∷ ps) t
after-digits p ps [] t h d = refl
after-digits p ps (c ∷ s) t h d = ground (arith, after-digits p ps s t h d.1)

word-digits : (s t : Codes) → All IsDigit s → word (s ++ 32 ∷ t) ≡ s
word-digits [] t d = refl
word-digits (c ∷ s) t d = ground (arith, word-digits s t d.1)

abbrev script_of : Result String → String
script_of (ok s) = s
script_of (err e) = ""

codes-six :
    (a b c d w z : String)
    → codes (a <> (b <> (c <> (d <> (w <> z)))))
      ≡ codes a ++ (codes b ++ (codes c ++ (codes d ++ (codes w ++ codes z))))
codes-six a b c d w z =
    rw (codes-append a, codes-append b, codes-append c, codes-append d, codes-append w) refl

abbrev after_text : String
after_text =
    " > \"$resource_receipt\"; chmod 0444 \"$resource_receipt\"; mv -f -- \"$resource_receipt\" /run/sageattention/verified-memory-bytes-v1; unset resource_receipt; "

rest-digits : (s t : Codes) → All IsDigit s → rest (s ++ 32 ∷ t) ≡ 32 ∷ t
rest-digits [] t d = refl
rest-digits (c ∷ s) t d = ground (arith, rest-digits s t d.1)

line_of-digits :
    (s : Codes) → All IsDigit s → line_of (some (s ++ codes after_text)) ≡ some (s ++ 10 ∷ [])
line_of-digits s d =
    ap
      (λ w. line_if w (without (codes " > \"$resource_receipt\"; ") (rest (s ++ codes after_text))))
      (word-digits s _ d)
    ∙ ap (λ t. line_if s (without (codes " > \"$resource_receipt\"; ") t)) (rest-digits s _ d)

prefix_codes :
    (n : ℕ) (prefix : String)
    → 0 < n
    → resource_receipt_prefix n ≡ ok prefix
    → codes prefix ≡ before_number ++ (codes (show_ℕ n) ++ codes after_text)
unfolding resource_receipt_prefix
prefix_codes n prefix positive h = elim (Bool-cases (n == 0)) [
  | inl e ↦ absurd (ground (arith, e, positive))
  | inr e ↦
      let g = rw e at h in
      ap codes (sym (ap script_of g))
      ∙ codes-six "install -d -m 0755 /run/sageattention; " "resource_receipt=$(mktemp "
          "/run/sageattention/.verified-memory-bytes-v1.XXXXXX); " "printf '%s\\n' " (show_ℕ n)
          after_text
]

module _ (n : ℕ) (prefix : String) (positive : 0 < n)
    (returned : resource_receipt_prefix n ≡ ok prefix) where
  digits : All IsDigit (codes (show_ℕ n))
  digits = IsNumeral-IsDigit n (codes (show_ℕ n)) (show_ℕ-IsNumeral n positive)

  -- The command writes the number and a newline into `$resource_receipt`.
  pub prefix-printed : printed prefix ≡ some (codes (show_ℕ n) ++ 10 ∷ [])
  prefix-printed =
      ap (λ s. line_of (after (codes "printf '%s\\n' ") s))
        (prefix_codes n prefix positive returned)
      ∙ line_of-digits (codes (show_ℕ n)) digits

  -- The command moves `$resource_receipt` to the receipt's path.
  pub prefix-moved_to : moved_to prefix ≡ some receipt_path
  prefix-moved_to =
      ap (λ s. word_of (after (codes "mv -f -- \"$resource_receipt\" ") s))
        (prefix_codes n prefix positive returned)
      ∙ ap word_of (
          after-digits 109 (codes "v -f -- \"$resource_receipt\" ") (codes (show_ℕ n))
            (codes after_text) (omega arith) digits)
