-- ===== src/Wheels/Select/Exact.antt =====
-- Selection from a merged manifest: since the runtime tuples differ, an artifact that matches the
-- environment is the only one.
use mathlib.Core.Path.{subst, ap₂}
use mathlib.Core.List.{Memᴰ}
use mathlib.Core.List.Permᴰ
use runpod_sageattention.Base.{
  ◌≡◌, refl, sym, ap, ◌∙◌, inl, inr, String, str_eq, Bool, true, false, Option, none, some, List,
  [], ◌∷◌, All, All-append, AllPairs, arith, Bool-cases, if◌then◌else◌,
}
use runpod_sageattention.Base.Sorting.Laws.{All-map, All-perm, sort-perm}
use runpod_sageattention.Json.{Json, Fields, obj, get, is_str}
use runpod_sageattention.Json.Equality.{is_number}
use runpod_sageattention.Job.Failure.{ok, ◌>>=◌}
use runpod_sageattention.Wheels.Asset.{as_dict, some_text, items_list, nonempty_list}
use runpod_sageattention.Wheels.Merge.{
  Source, Entry, merge, entry_order, runtime_tuple, runtime_keys, texts_of, both, merged_manifest,
  entry_items,
}
use runpod_sageattention.Wheels.Merge.Entries.{Entries, Loads, Different, Different-symm}
use runpod_sageattention.Wheels.Merge.Accepts.{All-zip}
use runpod_sageattention.Wheels.Merge.Batch.{merge_iff, required-ok}
use runpod_sageattention.Wheels.Merge.Order.{AllPairs-perm}
use runpod_sageattention.Wheels.Merge.Verified.{is_str-true}
use runpod_sageattention.Wheels.Select.Sound.{IsUsable}
use runpod_sageattention.Wheels.Select.{
  Environment, is_match, matches, select_artifact, load_manifest,
}

runtime_of : Environment → List String
runtime_of e =
    e.python_tag ∷ e.abi_tag ∷ e.platform_tag ∷ e.torch_version ∷ e.torch_cuda_version ∷ []

-- the text as `runtime_tuple` reads it
read_text : (v : Json) (s t : String) → is_str v s ≡ true → some_text v ≡ some t → t ≡ s
unfolding some_text
read_text v s t h g = str_case (str_eq s "") (sym (ap some_text (is_str-true v s h)) ∙ g)
  where
    str_case : (b : Bool) → (if b then none else some s) ≡ some t → t ≡ s
    str_case true e = cc
    str_case false e = cc

both-some :
    (o : Option String) (p : Option (List String)) (r : List String)
    → both o p ≡ some r
    → (t : String) × (ts : List String) × (o ≡ some t) × (p ≡ some ts) × (r ≡ t ∷ ts)
both-some (some t) (some ts) r h = (t, ts, refl, refl, cc)
both-some (some t) none r h = cc
both-some none p r h = cc

-- the texts of the keys, in order
abbrev AreTexts : Fields → List String → List String → Type 0
AreTexts f [] [] = Unit
AreTexts f (k ∷ ks) (s ∷ ss) = (is_str (get k f) s ≡ true) × AreTexts f ks ss
AreTexts f _ _ = ⊥

texts_of-eq :
    (f : Fields) (ks ss r : List String) → AreTexts f ks ss → texts_of f ks ≡ some r → r ≡ ss
unfolding texts_of
texts_of-eq f [] [] r a h = cc
texts_of-eq f (k ∷ ks) (s ∷ ss) r a h =
    let (t, ts, e, g, q) = both-some (some_text (get k f)) (texts_of f ks) r h in
    q ∙ ap₂ ◌∷◌ (read_text (get k f) s t a.0 e) (texts_of-eq f ks ss ts a.1 g)
texts_of-eq f [] (s ∷ ss) r a h = absurd a
texts_of-eq f (k ∷ ks) [] r a h = absurd a

runtime-match :
    (env : Environment) (f : Fields) (r : List String)
    → is_match env f ≡ true
    → runtime_tuple f ≡ ok r
    → r ≡ runtime_of env
unfolding runtime_of is_match runtime_tuple
runtime-match env f r h g =
    texts_of-eq f runtime_keys (runtime_of env) r
      (ground arith, (ground arith, (ground arith, (ground arith, (ground arith, tt)))))
      (required-ok _ (texts_of f runtime_keys) r g)

-- An artifact of a manifest that `runtime_tuple` reads.
IsRead : Entry → Type 0
IsRead e = runtime_tuple e.artifact ≡ ok e.runtime

other-match :
    (env : Environment) (x y : Entry)
    → IsRead x
    → IsRead y
    → Different x y
    → is_match env x.artifact ≡ true
    → is_match env y.artifact ≡ false
unfolding IsRead
other-match env x y p q d h = elim (Bool-cases (is_match env y.artifact)) [
  | inl g ↦ absurd (
      d.runtime (
        runtime-match env x.artifact x.runtime h p
        ∙ sym (runtime-match env y.artifact y.runtime g q)))
  | inr g ↦ g
]

artifacts_of : List Entry → List Json
artifacts_of [] = []
artifacts_of (e ∷ es) = obj e.artifact ∷ artifacts_of es

All-Memᴰ : {A : Type 0} (P : A → Type 0) {x : A} {xs : List A} → Memᴰ x xs → All P xs → P x
All-Memᴰ P (Memᴰ.head e) h = subst P (sym e) h.0
All-Memᴰ P (Memᴰ.tail i) h = All-Memᴰ P i h.1

matches-none :
    (env : Environment) (es : List Entry)
    → All (λ e. is_match env e.artifact ≡ false) es
    → matches env (artifacts_of es) ≡ ok []
unfolding matches artifacts_of as_dict
matches-none env [] h = refl
matches-none env (e ∷ es) h = rw (matches-none env es h.1, h.0) refl

matches-one :
    (env : Environment) (es : List Entry) (e : Entry)
    → AllPairs Different es
    → All IsRead es
    → Memᴰ e es
    → is_match env e.artifact ≡ true
    → matches env (artifacts_of es) ≡ ok (e.artifact ∷ [])
unfolding matches artifacts_of as_dict
matches-one env [] e d r i h = elim i [ ]
matches-one env (x ∷ es) e d r (Memᴰ.head q) h =
    let m : is_match env x.artifact ≡ true = subst (λ y. is_match env y.artifact ≡ true) q h in
    let rest = matches-none env es (
      All-map (λ y p. other-match env x y r.0 p.1 p.0 m) es
        (All-zip (Different x) IsRead es d.0 r.1)) in
    rw (rest, m, q) refl
matches-one env (x ∷ es) e d r (Memᴰ.tail i) h =
    let other =
      other-match env e x (All-Memᴰ IsRead i r.1) r.0
        (Different-symm x e (All-Memᴰ (Different x) i d.0)) h in
    rw (matches-one env es e d.1 r.1 i h, other) refl

Entries-IsRead : (js : List Json) (es : List Entry) → Entries js es → All IsRead es
unfolding IsRead
Entries-IsRead _ _ Entries.nil = tt
Entries-IsRead _ _ (Entries.entry {rest = js} {es = es} i is) = (i.runtime, Entries-IsRead js es is)

Loads-IsRead : (ss : List Source) (es : List Entry) → Loads ss es → All IsRead es
Loads-IsRead _ _ Loads.nil = tt
Loads-IsRead _ es (Loads.source {ss = ss} {artifacts = js} {front = front} {back = back} v is l q) =
    subst (All IsRead) (sym q)
      (All-append IsRead front back (Entries-IsRead js front is) (Loads-IsRead ss back l))

merge-Different :
    (ss : List Source) (es : List Entry) → merge ss ≡ ok es → AllPairs Different es × All IsRead es
merge-Different ss es h =
    let (ds, l, p, e) = (merge_iff ss es).0 h in
    let sorted = Permᴰ.symm (sort-perm entry_order ds) in
    (
      subst (AllPairs Different) (sym e) (AllPairs-perm sorted p),
      subst (All IsRead) (sym e) (All-perm IsRead sorted (Loads-IsRead ss ds l)),
    )

items-artifacts_of : (es : List Entry) → items_list (entry_items es) ≡ artifacts_of es
unfolding artifacts_of entry_items
items-artifacts_of [] = refl
items-artifacts_of (e ∷ es) = ap (◌∷◌ (obj e.artifact)) (items-artifacts_of es)

load_manifest-merged :
    (es : List Entry) (e : Entry)
    → Memᴰ e es
    → load_manifest (obj (merged_manifest es)) ≡ ok (artifacts_of es)
unfolding load_manifest merged_manifest entry_items artifacts_of as_dict is_number get nonempty_list
load_manifest-merged [] e i = elim i [ ]
load_manifest-merged (x ∷ es) e i = rw (items-artifacts_of es) refl

-- Of a manifest that `merge` returns: an artifact that matches the environment, supports its devices
-- and has a valid digest and a safe name is what is selected for it.
pub select-merge :
    (ss : List Source) (es : List Entry) (e : Entry) (env : Environment)
    → merge ss ≡ ok es
    → Memᴰ e es
    → is_match env e.artifact ≡ true
    → IsUsable env e.artifact
    → (load_manifest (obj (merged_manifest es)) >>= λ artifacts. select_artifact artifacts env)
      ≡ ok e.artifact
unfolding select_artifact
select-merge ss es e env h i m u =
    let (d, r) = merge-Different ss es h in
    rw
      (
        load_manifest-merged es e i,
        matches-one env es e d r i m,
        u.supported,
        u.covers,
        u.digest,
        u.name,
      )
      refl
