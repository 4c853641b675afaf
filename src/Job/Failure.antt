-- ===== src/Job/Failure.antt =====
-- The exceptions of the programs, and the result of a function that may raise.
use mathlib.Core.Bool.{Bool, true, false}
use Prim.Native.String.{String}
use mathlib.Core.Path.{◌≡◌, refl}

-- The text is the message, without the values that the source formats into it.
pub data Failure : Type 0 where
  value_error job_error job_timeout command_error capacity_unavailable gpu_placement :
      String → Failure
  -- of the scripts on wheels
  merge_error selection_error validation_error : String → Failure
  -- any other `Exception`: a failed `assert`, an `OSError` of a service
  other_error : String → Failure

-- `str(exc)`
abbrev pub message : Failure → String
message (value_error text) = text
message (job_error text) = text
message (job_timeout text) = text
message (command_error text) = text
message (capacity_unavailable text) = text
message (gpu_placement text) = text
message (merge_error text) = text
message (selection_error text) = text
message (validation_error text) = text
message (other_error text) = text

pub data Result {ℓ} (A : Type ℓ) : Type ℓ where
  ok : A → Result A
  err : Failure → Result A

module _ {ℓ κ} {A : Type ℓ} {B : Type κ} where
  infixl 10 ◌>>=◌
  abbrev pub ◌>>=◌ : Result A → (A → Result B) → Result B
  err failure >>= continue = err failure
  ok value >>= continue = continue value

  abbrev pub map_result : (A → B) → Result A → Result B
  map_result f (ok a) = ok (f a)
  map_result f (err x) = err x

  pub map_result-ok :
      (f : A → B) (r : Result A) (b : B) → map_result f r ≡ ok b → (a : A) × (r ≡ ok a) × (f a ≡ b)
  map_result-ok f (ok a) b h = (a, refl, cc)
  map_result-ok f (err x) b h = cc

infixl 10 ◌>>◌
abbrev pub ◌>>◌ {ℓ} : {A : Type ℓ} → Result (Unit {0}) → Result A → Result A
first >> second = first >>= λ _. second

-- `if test: raise ValueError(text)`
abbrev pub refuse_if : Bool → String → Result (Unit {0})
refuse_if true text = err (value_error text)
refuse_if false text = ok tt

-- `if test: raise failure`
abbrev pub raise_if : Bool → Failure → Result (Unit {0})
raise_if true e = err e
raise_if false e = ok tt

-- What a chain of results that returns has done.
module _ {ℓ κ} {A : Type ℓ} {B : Type κ} where
  pub bind-ok :
      (r : Result A) (f : A → Result B) (b : B)
      → (r >>= f) ≡ ok b
      → (a : A) × (r ≡ ok a) × (f a ≡ ok b)
  bind-ok (ok a) f b h = (a, refl, h)
  bind-ok (err e) f b h = cc

pub raise_if-ok {ℓ} :
    {A : Type ℓ} (t : Bool) (e : Failure) (r : Result A) (a : A)
    → (raise_if t e >> r) ≡ ok a
    → (t ≡ false) × (r ≡ ok a)
raise_if-ok true e r a h = cc
raise_if-ok false e r a h = (refl, h)
