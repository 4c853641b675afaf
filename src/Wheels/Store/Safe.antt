-- ===== src/Wheels/Store/Safe.antt =====
-- What `materialize_asset` leaves in the destination, on every way that a fetch can end.
use runpod_sageattention.Base.{
  String, eq_iff, ◌≡◌, ◌≢◌, inl, inr, refl, sym, ◌∙◌, Option, none, some, ℕ, length, length-append,
  ap, List, ◌∷◌, ◌++◌, Bool-cases, arith, ◌<>◌,
}
use Prim.Native.Char.{code}
use Prim.Native.String.append
use runpod_sageattention.Base.Text.{codes}
use runpod_sageattention.Json.{Json, str, is_str}
use runpod_sageattention.Job.Failure.{Failure, ok, err}
use runpod_sageattention.Wheels.Store.{
  Files, Fetch, in_place, whole, broken, redirected, Outcome, write, part_name, materialize,
  check_in_place, finish,
}
use runpod_sageattention.Wheels.Merge.Verified.{is_str-true}

-- A file of that name is there and has the digest.
abbrev pub HasDigest : {C : Type 0} → (C → String) → Files C → String → Json → Type 0
HasDigest {C = C} digest files name expected =
    (content : C) × (files name ≡ some content) × (expected ≡ str (digest content))

codes-append : (s t : String) → codes (s <> t) ≡ codes s ++ codes t
codes-append String.[] t = rw (append.nil t) refl
codes-append (String.◌∷◌ c s) t = rw (append.cons c s t) (ap (◌∷◌ (code c)) (codes-append s t))

part_name-ne : (asset : String) → part_name asset ≢ asset
unfolding part_name
part_name-ne asset e = omega (
  arith,
  ap (λ (s : String). length (codes s)) e,
  ap (λ (s : List ℕ). length s) (codes-append "." (asset <> ".part")),
  ap (λ (s : List ℕ). length s) (codes-append asset ".part"),
  length-append (codes asset) (codes ".part"),
)

-- Of a run of `materialize_asset`: a returned path has the digest; after a failure the wheel's file
-- is what it was; nothing but that file and the temporary one changes.
pub record IsSafe {C : Type 0} (digest : C → String) (files : Files C) (asset : String)
    (expected : Json) (o : Outcome C) : Type 0 where
  pub returned :
      (path : String)
      → o.returned ≡ ok path
      → (path ≡ asset) × HasDigest digest o.files asset expected
  pub failed : (e : Failure) → o.returned ≡ err e → o.files asset ≡ files asset
  pub others : (name : String) → name ≢ asset → name ≢ part_name asset → o.files name ≡ files name

write_same :
    {C : Type 0} (name : String) (c : Option C) (files : Files C) → write name c files name ≡ c
unfolding write
write_same name c files = ground (arith, eq_iff name name)

write_other :
    {C : Type 0} (name other : String) (c : Option C) (files : Files C)
    → other ≢ name
    → write name c files other ≡ files other
unfolding write
write_other name other c files n = ground (arith, eq_iff name other)

twice :
    {C : Type 0} (files : Files C) (asset : String) (c : Option C) (name : String)
    → name ≢ part_name asset
    → write (part_name asset) c (write (part_name asset) none files) name ≡ files name
twice files asset c name n =
    write_other (part_name asset) name c (write (part_name asset) none files) n
    ∙ write_other (part_name asset) name none files n

module _ {C : Type 0} (digest : C → String) where
  finish-IsSafe :
      (files before : Files C) (asset : String) (expected : Json) (content : C)
      → ((name : String) → name ≢ part_name asset → files name ≡ before name)
      → IsSafe digest before asset expected (finish digest files asset expected content)
  unfolding finish
  finish-IsSafe files before asset expected content same =
      elim (Bool-cases (is_str expected (digest content))) [
        | inl h ↦ rw h (record {
          returned = λ path e. (
            cc,
            (
              content,
              write_same asset (some content) (write (part_name asset) none files),
              is_str-true expected _ h,
            ),
          );
          failed = λ f e. cc;
          others = λ name n m.
              write_other asset name (some content) (write (part_name asset) none files) n
              ∙ write_other (part_name asset) name none files m
              ∙ same name m;
        })
        | inr h ↦ rw h (record {
          returned = λ path e. cc;
          failed = λ f e.
              write_other (part_name asset) asset none files (λ p. part_name-ne asset (sym p))
              ∙ same asset (λ p. part_name-ne asset (sym p));
          others = λ name n m. write_other (part_name asset) name none files m ∙ same name m;
        })
      ]

  -- However the fetch ends: a returned path has the expected digest, after a failure the wheel is what
  -- it was, and nothing but the wheel and its temporary file changes.
  pub materialize-IsSafe :
      (files : Files C) (fetch : Fetch C) (asset : String) (expected : Json)
      → IsSafe digest files asset expected (materialize digest files fetch asset expected)
  unfolding materialize check_in_place
  materialize-IsSafe files in_place asset expected = in_place-IsSafe (files asset) refl
    where
      in_place-IsSafe :
          (o : Option C)
          → files asset ≡ o
          → IsSafe digest files asset expected (check_in_place digest files asset expected o)
      in_place-IsSafe none e = record {
        returned = λ path p. cc;
        failed = λ f p. refl;
        others = λ name n m. refl;
      }
      in_place-IsSafe (some content) e = elim (Bool-cases (is_str expected (digest content))) [
        | inl h ↦ rw h (record {
          returned = λ path p. (cc, (content, e, is_str-true expected _ h));
          failed = λ f p. refl;
          others = λ name n m. refl;
        })
        | inr h ↦
            rw h
              (record { returned = λ path p. cc; failed = λ f p. refl; others = λ name n m. refl })
      ]
  materialize-IsSafe files (whole content) asset expected =
      finish-IsSafe _ files asset expected content (twice files asset (some content))
  materialize-IsSafe files (broken part) asset expected = record {
    returned = λ path p. cc;
    failed = λ f p. twice files asset part asset (λ q. part_name-ne asset (sym q));
    others = λ name n m. twice files asset part name m;
  }
  materialize-IsSafe files (redirected empty) asset expected = record {
    returned = λ path p. cc;
    failed = λ f p. twice files asset (some empty) asset (λ q. part_name-ne asset (sym q));
    others = λ name n m. twice files asset (some empty) name m;
  }
