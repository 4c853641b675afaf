-- ===== src/Resources/Receipt.antt =====
-- The orchestrator's memory assignment: `_assigned_memory_capacity` and
-- `_read_verified_memory_receipt` of tools/pod_resources.py.
pub mod Numeral
pub mod Script
pub mod Written
use mathlib.Core.Path.{subst}
use runpod_sageattention.Base.{
  ℕ, ◌+◌, ◌-◌, ◌*◌, ◌^◌, ◌≤◌, ◌<◌, ◌≡◌, ◌⊎◌, inl, inr, Option-cases, ◌≢◌, refl, String, Bool, not,
  ◌&&◌, ◌||◌, Option, none, some, [], ◌∷◌, arith, ltb, leb, ◌==◌, length, any, if◌then◌else◌,
}
use runpod_sageattention.Base.Text.{Codes, codes, is_digit}
use runpod_sageattention.Job.Failure.{Failure, Result, ok, err, value_error, refuse_if, ◌>>=◌, ◌>>◌}

-- What `lstat` and `fstat` say; the mode is `stat.S_IMODE`.
pub record FileStat : Type 0 where
  pub is_directory : Bool
  pub is_regular : Bool
  pub is_symlink : Bool
  pub links : ℕ
  pub mode : ℕ
  pub uid : ℕ
  pub gid : ℕ

-- The receipt directory and file as the system calls show them: `none` is an OSError of `lstat`
-- or `open`. The content is its bytes. `live` says that the filesystem root is `/`.
pub record ReceiptFile : Type 0 where
  pub live : Bool
  pub parent : Option FileStat
  pub opened : Option FileStat
  pub content : Codes

-- the value of digits only
unfoldable pub digits_value : ℕ → Codes → Option ℕ
unfolding is_digit
digits_value n [] = some n
digits_value n (c ∷ s) =
    let more = digits_value (n * 10 + (c - b'0')) s in if is_digit c then more else none

-- `re.fullmatch(r"[1-9][0-9]*", raw)`, with its value
unfoldable pub canonical : Codes → Option ℕ
unfolding digits_value
canonical [] = none
canonical (c ∷ s) = if leb b'1' c && leb c b'9' then digits_value (c - b'0') s else none

-- the text before a final line feed
unfoldable pub before_newline : Codes → Option Codes
before_newline [] = none
before_newline (c ∷ []) = if c == 10 then some [] else none
before_newline (c ∷ d ∷ s) = cons_line c (before_newline (d ∷ s))
  where
    cons_line : ℕ → Option Codes → Option Codes
    cons_line c none = none
    cons_line c (some r) = some (c ∷ r)

abbrev is_root_owned : FileStat → Bool
is_root_owned f = (f.uid == 0) && (f.gid == 0)

unfoldable pub check_parent : Bool → Option FileStat → Result (Unit {0})
check_parent live none = err (value_error "verified Runpod memory receipt directory is missing")
check_parent live (some f) = do
  refuse_if (not f.is_directory || f.is_symlink)
      "verified Runpod memory receipt directory is not a directory"
  refuse_if (not (f.mode == 0o755)) "verified Runpod memory receipt directory must be mode 0755"
  refuse_if (live && not (is_root_owned f))
      "verified Runpod memory receipt directory must be owned by root:root"

unfoldable pub check_receipt : Bool → Option FileStat → Result (Unit {0})
check_receipt live none = err (value_error "verified Runpod memory receipt is missing or unsafe")
check_receipt live (some f) = do
  refuse_if (not f.is_regular || (not (f.links == 1) || not (f.mode == 0o444)))
      "verified Runpod memory receipt must be a 0444 regular file"
  refuse_if (live && not (is_root_owned f))
      "verified Runpod memory receipt must be owned by root:root"

abbrev as_receipt : Option ℕ → Result ℕ
as_receipt none =
    err (value_error "verified Runpod memory receipt must contain one canonical positive integer")
as_receipt (some n) = ok n

abbrev canonical_line : Option Codes → Option ℕ
unfolding canonical
canonical_line none = none
canonical_line (some s) = canonical s

-- `_read_verified_memory_receipt`, on a system with POSIX modes
unfoldable pub read_verified_memory_receipt : ReceiptFile → Result ℕ
unfolding check_parent check_receipt canonical_line before_newline
read_verified_memory_receipt file = do
  check_parent file.live file.parent
  check_receipt file.live file.opened
  refuse_if (ltb 128 (length file.content)) "verified Runpod memory receipt is too large"
  refuse_if (any (λ c. ltb 127 c) file.content) "verified Runpod memory receipt is not ASCII"
  as_receipt (canonical_line (before_newline file.content))

abbrev as_assigned : Option ℕ → Result ℕ
as_assigned none =
    err (value_error "RUNPOD_ASSIGNED_MEMORY_BYTES must be a canonical positive integer")
as_assigned (some n) = ok n

-- The value of `RUNPOD_ASSIGNED_MEMORY_BYTES`, checked against the host and the receipt.
unfoldable pub check_assigned : ReceiptFile → Codes → ℕ → Result (Option ℕ)
check_assigned file raw host_total = do
  assigned ← as_assigned (canonical raw)
  refuse_if (ltb (2 ^ 63 - 1) assigned) "RUNPOD_ASSIGNED_MEMORY_BYTES exceeds signed 64-bit range"
  refuse_if (ltb 0 host_total && ltb host_total assigned)
      "RUNPOD_ASSIGNED_MEMORY_BYTES exceeds host memory reported by /proc/meminfo"
  receipt ← read_verified_memory_receipt file
  refuse_if (not (receipt == assigned))
      "RUNPOD_ASSIGNED_MEMORY_BYTES does not match the verified memory receipt"
  ok (some assigned)

-- The same for the variable's text: an empty one is absent.
unfoldable pub assigned_text : ReceiptFile → Codes → ℕ → Result (Option ℕ)
unfolding check_assigned
assigned_text file [] host_total = ok none
assigned_text file (c ∷ s) host_total = check_assigned file (c ∷ s) host_total

-- `_assigned_memory_capacity`, from the environment's text
unfoldable pub assigned_memory_capacity : ReceiptFile → Option String → ℕ → Result (Option ℕ)
unfolding assigned_text
assigned_memory_capacity file none host_total = ok none
assigned_memory_capacity file (some raw) host_total = assigned_text file (codes raw) host_total

-- An assignment is believed only if the receipt holds the same number, and only up to the host's
-- memory and a signed 64-bit number.
pub record IsBelieved (file : ReceiptFile) (host_total assigned : ℕ) : Type 0 where
  pub receipt : read_verified_memory_receipt file ≡ ok assigned
  pub signed : assigned < 2 ^ 63
  pub host : 0 < host_total → assigned ≤ host_total

Result-cases : {A : Type 0} (r : Result A) → ((a : A) × (r ≡ ok a)) ⊎ ((f : Failure) × (r ≡ err f))
Result-cases (ok a) = inl (a, refl)
Result-cases (err f) = inr (f, refl)

module _ (file : ReceiptFile) (raw : Codes) (host_total : ℕ) (o : Option ℕ) where
  believed :
      (n r : ℕ)
      → canonical raw ≡ some n
      → read_verified_memory_receipt file ≡ ok r
      → check_assigned file raw host_total ≡ ok o
      → (o ≡ some n) × IsBelieved file host_total n
  unfolding check_assigned
  believed n r en er h = ground arith

  not_canonical : canonical raw ≡ none → check_assigned file raw host_total ≢ ok o
  unfolding check_assigned
  not_canonical e h = ground arith

  no_receipt :
      (n : ℕ) (f : Failure)
      → canonical raw ≡ some n
      → read_verified_memory_receipt file ≡ err f
      → check_assigned file raw host_total ≢ ok o
  unfolding check_assigned
  no_receipt n f en er h = ground arith

  check_assigned-IsBelieved :
      check_assigned file raw host_total ≡ ok o
      → (assigned : ℕ) × (o ≡ some assigned) × IsBelieved file host_total assigned
  check_assigned-IsBelieved h = elim (Option-cases (canonical raw)) [
    | inl e ↦ absurd (not_canonical e h)
    | inr (n, e) ↦ elim (Result-cases (read_verified_memory_receipt file)) [
      | inl (r, er) ↦ let (p, b) = believed n r e er h in (n, p, b)
      | inr (f, er) ↦ absurd (no_receipt n f e er h)
    ]
  ]

text-IsBelieved :
    (file : ReceiptFile) (raw : Codes) (host_total assigned : ℕ)
    → assigned_text file raw host_total ≡ ok (some assigned)
    → IsBelieved file host_total assigned
unfolding assigned_text
text-IsBelieved file [] host_total assigned h = cc
text-IsBelieved file (c ∷ s) host_total assigned h =
    let (n, p, b) = check_assigned-IsBelieved file (c ∷ s) host_total (some assigned) h in
    let e : n ≡ assigned = cc in subst (λ m. IsBelieved file host_total m) e b

-- Where `_assigned_memory_capacity` returns an assignment, it is believed: the receipt holds the
-- same number, it is below 2^63, and it is not above a known host memory.
pub assigned_memory_capacity-IsBelieved :
    (file : ReceiptFile) (raw : Option String) (host_total assigned : ℕ)
    → assigned_memory_capacity file raw host_total ≡ ok (some assigned)
    → IsBelieved file host_total assigned
unfolding assigned_memory_capacity
assigned_memory_capacity-IsBelieved file none host_total assigned h = cc
assigned_memory_capacity-IsBelieved file (some raw) host_total assigned h =
    text-IsBelieved file (codes raw) host_total assigned h
