-- ===== src/Wheels/Merge/Verified.antt =====
-- What `load_and_verify` has checked of each artifact of a merged manifest.
use mathlib.Core.Path.{subst}
use mathlib.Core.List.{Memᴰ}
use mathlib.Core.List.Permᴰ
use runpod_sageattention.Base.{
  ◌≡◌, refl, sym, ap, ◌∙◌, eq_iff, String, Bool, true, false, not, some, List, ◌∷◌, All, All-append,
  arith,
}
use runpod_sageattention.Base.Int.{pos}
use runpod_sageattention.Base.Sorting.Laws.{All-map, All-perm, sort-perm}
use runpod_sageattention.Json.{Json, Fields, null, bool, int, float, arr, str, obj, get, is_str}
use runpod_sageattention.Json.Equality.{is_number}
use runpod_sageattention.Job.Failure.{ok, bind-ok, raise_if-ok}
use runpod_sageattention.Wheels.Asset.{as_dict, wheel_name, is_wheel_name, nonempty_list}
use runpod_sageattention.Wheels.Merge.{
  Source, Wheel, Entry, required, verify_artifact, verify_artifacts, check_lines, load_and_verify,
  merge, entry_order,
}
use runpod_sageattention.Wheels.Merge.Entries.{IsEntry, Entries, Loads}
use runpod_sageattention.Wheels.Merge.Batch.{merge_iff, as_dict-ok, required-ok}

-- The entry names a wheel beside its manifest, with the digest and the size that it states.
pub record IsVerified (s : Source) (e : Entry) : Type 0 where
  pub name : is_wheel_name e.asset ≡ true
  pub wheel : Wheel
  pub beside : s.wheels e.asset ≡ some wheel
  pub sha256 : get "sha256" e.artifact ≡ str wheel.sha256
  pub size : is_number (get "size" e.artifact) (pos wheel.size) ≡ true

pub wheel_name-ok :
    (v : Json) (asset : String)
    → wheel_name v ≡ some asset
    → (v ≡ str asset) × (is_wheel_name asset ≡ true)
unfolding wheel_name
wheel_name-ok v asset h = (ground arith, ground arith)

pub not-false : (b : Bool) → not b ≡ false → b ≡ true
not-false b h = ground arith

pub is_str-true : (v : Json) (s : String) → is_str v s ≡ true → v ≡ str s
is_str-true (str t) s h = ap str ((eq_iff t s).0 h)
is_str-true null s h = cc
is_str-true (bool b) s h = cc
is_str-true (int z) s h = cc
is_str-true (float t) s h = cc
is_str-true (arr vs) s h = cc
is_str-true (obj fs) s h = cc

verify_artifact-ok :
    (s : Source) (j : Json) (e : Entry) (line : String)
    → verify_artifact s j ≡ ok line
    → IsEntry j e
    → IsVerified s e
unfolding verify_artifact
verify_artifact-ok s j e line h i =
    let (fields, hj, h₁) = bind-ok (as_dict j) _ line h in
    let (asset, ha, h₂) = bind-ok (required _ (wheel_name (get "asset" fields))) _ line h₁ in
    let (wheel, hw, h₃) = bind-ok (required _ (s.wheels asset)) _ line h₂ in
    let (digest, h₄) = raise_if-ok _ _ _ line h₃ in
    let (bytes, h₅) = raise_if-ok _ _ _ line h₄ in
    let same : fields ≡ e.artifact = obj_inj (sym (as_dict-ok j fields hj) ∙ i.fields) in
    let (at, safe) = wheel_name-ok _ asset (required-ok _ _ asset ha) in
    let name : asset ≡ e.asset = str_inj (sym at ∙ (ap (get "asset") same ∙ i.asset)) in
    record {
      name = subst (λ a. is_wheel_name a ≡ true) name safe;
      wheel = wheel;
      beside = subst (λ a. s.wheels a ≡ some wheel) name (required-ok _ _ wheel hw);
      sha256 =
          subst (λ f. get "sha256" f ≡ str wheel.sha256) same
            (is_str-true _ _ (not-false _ digest));
      size = subst (λ f. is_number (get "size" f) (pos wheel.size) ≡ true) same (not-false _ bytes);
    }
  where
    obj_inj : {x y : Fields} → obj x ≡ obj y → x ≡ y
    obj_inj p = cc

    str_inj : {x y : String} → str x ≡ str y → x ≡ y
    str_inj p = cc

verify_artifacts-ok :
    (s : Source) (js : List Json) (es : List Entry) (lines : List String)
    → verify_artifacts s js ≡ ok lines
    → Entries js es
    → All (IsVerified s) es
unfolding verify_artifacts
verify_artifacts-ok s _ _ lines h Entries.nil = tt
verify_artifacts-ok s _ _ lines h (Entries.entry {a = j} {e = e} {rest = js} {es = es} i is) =
    let (line, hl, h₁) = bind-ok (verify_artifact s j) _ lines h in
    let (more, hm, h₂) = bind-ok (verify_artifacts s js) _ lines h₁ in
    (verify_artifact-ok s j e line hl i, verify_artifacts-ok s js es more hm is)

load_and_verify-ok :
    (s : Source) (js : List Json)
    → load_and_verify s ≡ ok js
    → (lines : List String) × (verify_artifacts s js ≡ ok lines)
unfolding load_and_verify
load_and_verify-ok s js h =
    let (manifest, hm, h₁) = bind-ok (as_dict s.manifest) _ js h in
    let (schema, h₂) = raise_if-ok _ _ _ js h₁ in
    let (artifacts, ha, h₃) =
      bind-ok (required _ (nonempty_list (get "artifacts" manifest))) _ js h₂ in
    let (lines, hl, h₄) = bind-ok (verify_artifacts s artifacts) _ js h₃ in
    let (u, hc, h₅) = bind-ok (check_lines s.checksums lines) _ js h₄ in
    (lines, subst (λ a. verify_artifacts s a ≡ ok lines) (ok_inj h₅) hl)
  where
    ok_inj : {x y : List Json} → ok x ≡ ok y → x ≡ y
    ok_inj p = cc

-- Some source of the list has the entry's wheel.
abbrev pub HasWheel : List Source → Entry → Type 0
HasWheel ss e = (s : Source) × Memᴰ s ss × IsVerified s e

Loads-HasWheel : (ss : List Source) (es : List Entry) → Loads ss es → All (HasWheel ss) es
Loads-HasWheel _ _ Loads.nil = tt
Loads-HasWheel _ es
      (Loads.source {s = s} {ss = ss} {artifacts = js} {front = front} {back = back} v is l q) =
    let (lines, hl) = load_and_verify-ok s js v in
    subst (All (HasWheel (s ∷ ss))) (sym q) (
      All-append (HasWheel (s ∷ ss)) front back
        (All-map (λ e (w : IsVerified s e). (s, Memᴰ.head refl, w)) front
          (verify_artifacts-ok s js front lines hl is))
        (All-map (λ e (w : HasWheel ss e). (w.0, Memᴰ.tail w.1, w.2)) back
          (Loads-HasWheel ss back l)))

-- Every entry of a merged manifest has a safe name, and one of the sources has a wheel of that
-- name with the entry's digest and size beside its manifest.
pub merge-HasWheel : (ss : List Source) (es : List Entry) → merge ss ≡ ok es → All (HasWheel ss) es
merge-HasWheel ss es h =
    let (ds, l, p, e) = (merge_iff ss es).0 h in
    subst (All (HasWheel ss)) (sym e)
      (All-perm (HasWheel ss) (Permᴰ.symm (sort-perm entry_order ds)) (Loads-HasWheel ss ds l))
