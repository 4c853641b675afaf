-- ===== src/Resources/Receipt/Written.antt =====
-- Joins run_job's side of the memory assignment, the command that writes the receipt and the
-- exported environment, with its reader `_assigned_memory_capacity` in the Pod.
use runpod_sageattention.Base.{
  str_eq, ℕ, suc, ◌^◌, ◌≤◌, ◌<◌, ◌≡◌, inl, inr, refl, sym, ap, ◌∙◌, String, true, false, Option,
  none, some, List, [], ◌∷◌, ◌++◌, arith, ltb, ◌==◌, length, any, length-append, Bool-cases,
  if◌then◌else◌,
}
use runpod_sageattention.Base.Text.{Codes, codes}
use runpod_sageattention.Base.Print.{show_ℕ}
use runpod_sageattention.Job.Assignment.{VerifiedBuildAssignment}
use runpod_sageattention.Job.Commands.{build_exports, resource_receipt_prefix}
use runpod_sageattention.Job.Failure.{Result, ok, err, bind-ok}
use runpod_sageattention.Resources.Receipt.{
  ReceiptFile, check_parent, check_receipt, canonical, read_verified_memory_receipt, check_assigned,
  assigned_text, assigned_memory_capacity,
}
use runpod_sageattention.Resources.Receipt.Script.{
  printed, moved_to, receipt_path, prefix-printed, prefix-moved_to,
}
use runpod_sageattention.Resources.Receipt.Numeral.{
  IsNumeral, numeral, show_ℕ-IsNumeral, show_digits-length, any-append, IsNumeral-ascii,
  IsNumeral-canonical, before_newline-append,
}

-- The value that an exported variable has.
abbrev pub exported : String → List (String × String) → Option String
exported name [] = none
exported name ((k, v) ∷ es) = if str_eq k name then some v else exported name es

-- A number with a newline.
abbrev pub receipt_content : ℕ → Codes
receipt_content n = codes (show_ℕ n) ++ 10 ∷ []

module _ (n : ℕ) (positive : 0 < n) where
  receipt_content-short : n < 2 ^ 63 → ltb 128 (length (receipt_content n)) ≡ false
  unfolding show_ℕ
  receipt_content-short bound =
      rw (length-append (codes (show_ℕ n)) (10 ∷ []))
        (ground (arith, show_digits-length 18 (suc n) n (omega (arith, bound))))

  receipt_content-ascii : any (λ c. ltb 127 c) (receipt_content n) ≡ false
  receipt_content-ascii =
      any-append (codes (show_ℕ n))
        (IsNumeral-ascii n (codes (show_ℕ n)) (show_ℕ-IsNumeral n positive))

  receipt_content-read :
      (file : ReceiptFile)
      → file.content ≡ receipt_content n
      → check_parent file.live file.parent ≡ ok tt
      → check_receipt file.live file.opened ≡ ok tt
      → n < 2 ^ 63
      → read_verified_memory_receipt file ≡ ok n
  unfolding read_verified_memory_receipt
  receipt_content-read file e p r bound =
      rw
        (
          p,
          r,
          e,
          receipt_content-short bound,
          receipt_content-ascii,
          before_newline-append (codes (show_ℕ n)),
          IsNumeral-canonical n (codes (show_ℕ n)) (show_ℕ-IsNumeral n positive),
        )
        refl

assigned_text-numeral :
    (file : ReceiptFile) (n host : ℕ) (s : Codes)
    → IsNumeral n s
    → assigned_text file s host ≡ check_assigned file s host
unfolding assigned_text
assigned_text-numeral file n host s (numeral c t low high e) = refl

check_assigned-written :
    (file : ReceiptFile) (n host : ℕ) (s : Codes)
    → canonical s ≡ some n
    → read_verified_memory_receipt file ≡ ok n
    → n < 2 ^ 63
    → n ≤ host
    → check_assigned file s host ≡ ok (some n)
unfolding check_assigned
check_assigned-written file n host s e r signed fits = ground arith

abbrev pub assigned_name : String
assigned_name = "RUNPOD_ASSIGNED_MEMORY_BYTES"

some_inj : {x y : Codes} → some x ≡ some y → x ≡ y
some_inj e = cc

abbrev exports_of : Result (String × List (String × String)) → List (String × String)
exports_of (ok (prefix, exports)) = exports
exports_of (err e) = []

abbrev prefix_of : Result (String × List (String × String)) → String
prefix_of (ok (prefix, exports)) = prefix
prefix_of (err e) = ""

resource_receipt_prefix-positive :
    (n : ℕ) (prefix : String) → resource_receipt_prefix n ≡ ok prefix → 0 < n
unfolding resource_receipt_prefix
resource_receipt_prefix-positive n prefix h = elim (Bool-cases (n == 0)) [
  | inl e ↦ let g = rw e at h in cc g
  | inr e ↦ ground (arith, e)
]

build_exports-prefix :
    (a : VerifiedBuildAssignment) (prefix : String) (exports : List (String × String))
    → build_exports true (some a) ≡ ok (prefix, exports)
    → (resource_receipt_prefix a.assigned_memory_bytes ≡ ok prefix)
      × (exported assigned_name exports ≡ some (show_ℕ a.assigned_memory_bytes))
unfolding build_exports
build_exports-prefix a prefix exports h =
    let (p, r, g) =
      bind-ok (resource_receipt_prefix a.assigned_memory_bytes) _ (prefix, exports) h in
    (
      r ∙ ap (λ x. ok x) (ap prefix_of g),
      ap (λ es. exported assigned_name es) (sym (ap exports_of g)),
    )

-- What run_job exports and writes for an assignment, the program in the Pod believes. The command
-- in front of the build moves the file `$resource_receipt` to the receipt's path; and if a safe
-- receipt file holds what the command's printf writes into `$resource_receipt`, for a number below
-- 2^63 and within the host's memory, `_assigned_memory_capacity` returns the very number of the
-- assignment.
pub build_exports-assigned_memory_capacity :
    (file : ReceiptFile) (a : VerifiedBuildAssignment) (prefix : String)
    (exports : List (String × String)) (host : ℕ)
    → build_exports true (some a) ≡ ok (prefix, exports)
    → printed prefix ≡ some file.content
    → check_parent file.live file.parent ≡ ok tt
    → check_receipt file.live file.opened ≡ ok tt
    → a.assigned_memory_bytes < 2 ^ 63
    → a.assigned_memory_bytes ≤ host
    → (moved_to prefix ≡ some receipt_path)
      × (assigned_memory_capacity file (exported assigned_name exports) host
          ≡ ok (some a.assigned_memory_bytes))
unfolding assigned_memory_capacity
build_exports-assigned_memory_capacity file a prefix exports host h content parent receipt signed
      fits =
    let n = a.assigned_memory_bytes in
    let (p, e) = build_exports-prefix a prefix exports h in
    let positive = resource_receipt_prefix-positive n prefix p in
    let s = show_ℕ-IsNumeral n positive in
    let written : file.content ≡ receipt_content n =
      some_inj (sym content ∙ prefix-printed n prefix positive p) in
    (
      prefix-moved_to n prefix positive p,
      rw e (
          assigned_text-numeral file n host (codes (show_ℕ n)) s
          ∙ check_assigned-written file n host (codes (show_ℕ n))
              (IsNumeral-canonical n (codes (show_ℕ n)) s)
              (receipt_content-read n positive file written parent receipt signed) signed fits),
    )
