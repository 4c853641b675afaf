-- ===== src/Wheels/Locate/Direct.antt =====
-- Where `resolve_asset` finds a wheel.
use mathlib.Core.Path.{subst}
use runpod_sageattention.Base.{
  ◌≡◌, ◌≢◌, refl, sym, ap, ◌↔◌, ◌⊎◌, inl, inr, String, ◌<>◌, str_eq, eq_iff, Bool, true, false, not,
  Option, none, some, arith, Bool-cases,
}
use runpod_sageattention.Base.Text.{codes, eq_codes, eq_of_eq_codes, eq_codes_refl}
use runpod_sageattention.Json.{Json, null, bool, int, float, str, arr, obj}
use runpod_sageattention.Job.Failure.{Failure, ok, raise_if, ◌>>◌, raise_if-ok}
use runpod_sageattention.Wheels.Asset.{path_name}
use runpod_sageattention.Wheels.Merge.Verified.{not-false}
use runpod_sageattention.Wheels.Locate.{
  Urls, Location, remote, local, has_simple_part, reject_simple_index, explicit_location,
  base_location, strip_slashes, resolve_from,
}

-- An HTTPS URL that is no page of a package index.
pub record IsDirect (urls : Urls) (url : String) : Type 0 where
  pub https : urls.scheme url ≡ "https"
  pub no_index : has_simple_part urls url ≡ false

-- A wheel's own URL, whose path ends in its name.
abbrev pub IsOwnUrl : Urls → String → Json → Location → Type 0
IsOwnUrl urls asset url found =
    (u : String) × (url ≡ str u)
    × IsDirect urls u
    × (path_name (urls.unquote (urls.path u)) ≡ codes asset)
    × (found ≡ remote u)

-- Its name below a base URL, where no file stands beside the manifest.
abbrev pub IsBelowBase : Urls → Bool → Option String → String → Json → Location → Type 0
IsBelowBase urls is_local base asset url found =
    (b : String) × (url ≡ null)
    × (is_local ≡ false)
    × (base ≡ some b)
    × (b ≢ "")
    × IsDirect urls b
    × (found ≡ remote (strip_slashes b <> ("/" <> urls.quote asset)))

abbrev pub IsBeside : Bool → String → Json → Location → Type 0
IsBeside is_local asset url found = (url ≡ null) × (is_local ≡ true) × (found ≡ local asset)

is_not : {b : Bool} → b ≡ true → not b ≡ false
is_not h = rw h refl

-- tests, each of which may raise
raises_iff :
    (a b c : Bool) (e f g : Failure) (x y : Location)
    → ((raise_if a e >> (raise_if b f >> (raise_if c g >> ok x))) ≡ ok y)
      ↔ ((a ≡ false) × (b ≡ false) × (c ≡ false) × (y ≡ x))
raises_iff a b c e f g x y = (
  λ h.
      let (p, h₁) = raise_if-ok a e _ y h in
      let (q, h₂) = raise_if-ok b f _ y h₁ in let (r, h₃) = raise_if-ok c g _ y h₂ in (p, q, r, cc),
  λ h. let (p, q, r, s) = h in rw (p, q, r, s) refl,
)

explicit_iff :
    (urls : Urls) (asset u : String) (found : Location)
    → (explicit_location urls asset u ≡ ok found) ↔ (
        IsDirect urls u
        × (path_name (urls.unquote (urls.path u)) ≡ codes asset)
        × (found ≡ remote u))
unfolding explicit_location reject_simple_index
explicit_iff urls asset u found =
    let r =
      raises_iff (has_simple_part urls u) (not (str_eq (urls.scheme u) "https"))
        (not (eq_codes (path_name (urls.unquote (urls.path u))) (codes asset))) _ _ _ (remote u)
        found in
    (
      λ h.
          let (index, scheme, name, e) = r.0 h in
          (
            record {
              https = (eq_iff (urls.scheme u) "https").0 (not-false _ scheme);
              no_index = index;
            },
            eq_of_eq_codes _ _ (not-false _ name),
            e,
          ),
      λ h.
          let (d, name, e) = h in
          r.1 (
            d.no_index,
            is_not ((eq_iff (urls.scheme u) "https").1 d.https),
            is_not (
                subst (λ n. eq_codes n (codes asset) ≡ true) (sym name)
                  (eq_codes_refl (codes asset))),
            e,
          ),
    )

base_iff :
    (urls : Urls) (asset b : String) (found : Location)
    → (base_location urls asset (some b) ≡ ok found) ↔ (
        (b ≢ "")
        × IsDirect urls b
        × (found ≡ remote (strip_slashes b <> ("/" <> urls.quote asset))))
unfolding base_location reject_simple_index
base_iff urls asset b found =
    let r =
      raises_iff (str_eq b "") (has_simple_part urls b) (not (str_eq (urls.scheme b) "https")) _ _ _
        (remote (strip_slashes b <> ("/" <> urls.quote asset))) found in
    (
      λ h.
          let (given, index, scheme, e) = r.0 h in
          (
            λ q. ground (arith, given, eq_iff b "", q),
            record {
              https = (eq_iff (urls.scheme b) "https").0 (not-false _ scheme);
              no_index = index;
            },
            e,
          ),
      λ h.
          let (given, d, e) = h in
          r.1 (
            differs (Bool-cases (str_eq b "")) given,
            d.no_index,
            is_not ((eq_iff (urls.scheme b) "https").1 d.https),
            e,
          ),
    )
  where
    differs : (str_eq b "" ≡ true) ⊎ (str_eq b "" ≡ false) → b ≢ "" → str_eq b "" ≡ false
    differs (inl t) n = absurd (n ((eq_iff b "").0 t))
    differs (inr t) n = t

-- neither a text nor None
abbrev IsOther : Json → Type 0
IsOther null = ⊥
IsOther (str u) = ⊥
IsOther _ = Unit

abbrev pub IsOffered : Urls → Bool → Option String → String → Json → Location → Type 0
IsOffered urls is_local base asset url found =
    IsOwnUrl urls asset url found
    ⊎ (IsBeside is_local asset url found ⊎ IsBelowBase urls is_local base asset url found)

other-no :
    (urls : Urls) (is_local : Bool) (base : Option String) (asset : String) (url : Json)
    (found : Location)
    → IsOther url
    → IsOffered urls is_local base asset url found
    → ⊥
other-no urls is_local base asset url found o (inl own) = subst IsOther own.1 o
other-no urls is_local base asset url found o (inr (inl beside)) = subst IsOther beside.0 o
other-no urls is_local base asset url found o (inr (inr below)) = subst IsOther below.1 o

null_str : {u : String} → null ≡ str u → ⊥
null_str e = cc

true-false : true ≡ false → ⊥
true-false e = cc

none-some : {u : String} → none ≡ some u → ⊥
none-some e = cc

null_iff :
    (urls : Urls) (is_local : Bool) (base : Option String) (asset : String) (found : Location)
    → (resolve_from urls is_local base asset null ≡ ok found)
      ↔ IsOffered urls is_local base asset null found
unfolding resolve_from
null_iff urls true base asset found = (
  λ h. inr (inl (refl, refl, cc)),
  λ h. elim h [
    | inl o ↦ absurd (null_str (o.1))
    | inr r ↦ elim r [
      | inl b ↦ ap (λ (l : Location). ok l) (sym b.2)
      | inr b ↦ absurd (true-false b.2)
    ]
  ],
)
null_iff urls false none asset found = (
  λ h. cc,
  λ h. elim h [
    | inl o ↦ absurd (null_str o.1)
    | inr r ↦ elim r [ inl l ↦ absurd (true-false (sym l.1)) | inr l ↦ absurd (none-some l.3) ]
  ],
)
null_iff urls false (some b) asset found = (
  λ h.
      let (given, d, e) = (base_iff urls asset b found).0 h in
      inr (inr (b, refl, refl, refl, given, d, e)),
  λ h. elim h [
    | inl o ↦ absurd (null_str o.1)
    | inr r ↦ elim r [
      | inl l ↦ absurd (true-false (sym l.1))
      | inr l ↦
          let (x, e, t, same, given, d, f) = l in
          let q : x ≡ b = cc in
          (base_iff urls asset b found).1 (
            subst
              (λ c.
                (c ≢ "")
                × IsDirect urls c
                × (found ≡ remote (strip_slashes c <> ("/" <> urls.quote asset))))
              q (given, d, f))
    ]
  ],
)

-- `resolve_asset` returns exactly these locations: the wheel's own URL where it is direct and ends
-- in the wheel's name, else the file beside the manifest, else the name below a direct base URL.
pub resolve_from_iff :
    (urls : Urls) (is_local : Bool) (base : Option String) (asset : String) (url : Json)
    (found : Location)
    → (resolve_from urls is_local base asset url ≡ ok found) ↔ (
        IsOwnUrl urls asset url found
        ⊎ (IsBeside is_local asset url found ⊎ IsBelowBase urls is_local base asset url found))
unfolding resolve_from
resolve_from_iff urls is_local base asset (str u) found = (
  λ h. let (d, n, e) = (explicit_iff urls asset u found).0 h in inl (u, refl, d, n, e),
  λ h. elim h [
    | inl o ↦
        let (v, e, d, n, f) = o in
        let q : v ≡ u = cc in
        (explicit_iff urls asset u found).1 (
          subst
            (λ w.
              IsDirect urls w
              × (path_name (urls.unquote (urls.path w)) ≡ codes asset)
              × (found ≡ remote w))
            q (d, n, f))
    | inr r ↦ elim r [ inl b ↦ absurd (null_str (sym b.0)) | inr b ↦ absurd (null_str (sym b.1)) ]
  ],
)
resolve_from_iff urls is_local base asset null found = null_iff urls is_local base asset found
resolve_from_iff urls is_local base asset (bool b) found =
    (λ h. cc, λ h. absurd (other-no urls is_local base asset (bool b) found tt h))
resolve_from_iff urls is_local base asset (int z) found =
    (λ h. cc, λ h. absurd (other-no urls is_local base asset (int z) found tt h))
resolve_from_iff urls is_local base asset (float s) found =
    (λ h. cc, λ h. absurd (other-no urls is_local base asset (float s) found tt h))
resolve_from_iff urls is_local base asset (arr v) found =
    (λ h. cc, λ h. absurd (other-no urls is_local base asset (arr v) found tt h))
resolve_from_iff urls is_local base asset (obj o) found =
    (λ h. cc, λ h. absurd (other-no urls is_local base asset (obj o) found tt h))
