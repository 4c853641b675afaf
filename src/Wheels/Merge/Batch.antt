-- ===== src/Wheels/Merge/Batch.antt =====
-- The merge adds one artifact at a time and tests it against its sets. Seen as a whole: all
-- entries are loaded, must be pairwise different, and are sorted.
use mathlib.Core.Path.{subst}
use mathlib.Core.List.{append_assoc, append-nil}
use runpod_sageattention.Base.{
  ◌≡◌, refl, ap, ◌∙◌, ◌↔◌, String, Option, none, some, List, [], ◌∷◌, ◌++◌, All, AllPairs, arith,
}
use runpod_sageattention.Base.Sorting.{sort}
use runpod_sageattention.Json.{Json, Fields, str, obj, get}
use runpod_sageattention.Job.Failure.{Result, ok, err, bind-ok, raise_if-ok}
use runpod_sageattention.Wheels.Asset.{as_dict, some_text}
use runpod_sageattention.Wheels.Merge.{
  Source, Entry, Merged, empty, add_artifact, add_all, gather, load_and_verify, runtime_tuple,
  required, asset_text, merge, from_gather, entry_order,
}
use runpod_sageattention.Wheels.Merge.Entries.{
  IsEntry, Entries, Loads, Different, state_of, add-state_of, IsFresh-iff,
}
use runpod_sageattention.Wheels.Merge.Accepts.{
  Accepts, Accepts-append, Accepts-front, Accepts-back, Accepts-iff, All-empty,
}

pub as_dict-ok : (v : Json) (fs : Fields) → as_dict v ≡ ok fs → v ≡ obj fs
unfolding as_dict
as_dict-ok v fs h = ground arith

asset_text-ok : (v : Json) (s : String) → asset_text v ≡ ok s → v ≡ str s
asset_text-ok v s h = ground arith

pub required-ok :
    {A : Type 0} (t : String) (o : Option A) (a : A) → required t o ≡ ok a → o ≡ some a
unfolding required
required-ok t none a h = cc
required-ok t (some b) a h = cc

add_artifact-ok :
    (es : List Entry) (j : Json) (m : Merged)
    → add_artifact (state_of es) j ≡ ok m
    → (e : Entry) × IsEntry j e × All (λ d. Different d e) es × (m ≡ state_of (es ++ e ∷ []))
unfolding add_artifact
add_artifact-ok es j m h =
    let (fields, hj, h₁) = bind-ok (as_dict j) _ m h in
    let (asset, ha, h₂) = bind-ok (asset_text (get "asset" fields)) _ m h₁ in
    let (runtime, hr, h₃) = bind-ok (runtime_tuple fields) _ m h₂ in
    let (fresh_asset, h₄) = raise_if-ok _ _ _ m h₃ in
    let (fresh_runtime, h₅) = raise_if-ok _ _ _ m h₄ in
    let (build_id, hb, h₆) = bind-ok (required _ (some_text (get "build_id" fields))) _ m h₅ in
    let (fresh_build, h₇) = raise_if-ok _ _ _ m h₆ in
    let e : Entry = record {
      artifact = fields;
      asset = asset;
      runtime = runtime;
      build_id = build_id;
    } in
    (
      e,
      record {
        fields = as_dict-ok j fields hj;
        asset = asset_text-ok _ asset ha;
        runtime = hr;
        build_id = required-ok _ _ build_id hb;
      },
      (IsFresh-iff es e).0 (fresh_asset, fresh_runtime, fresh_build),
      ok_inj h₇ ∙ add-state_of es e,
    )
  where
    ok_inj : {x y : Merged} → ok x ≡ ok y → y ≡ x
    ok_inj p = cc

add_artifact-of :
    (es : List Entry) (j : Json) (e : Entry)
    → IsEntry j e
    → All (λ d. Different d e) es
    → add_artifact (state_of es) j ≡ ok (state_of (es ++ e ∷ []))
unfolding add_artifact as_dict required
add_artifact-of es j e i f =
    let (a, r, b) = (IsFresh-iff es e).1 f in
    rw (i.fields, i.asset, i.runtime, a, r, i.build_id, b, add-state_of es e) refl

add_all-ok :
    (es : List Entry) (js : List Json) (m : Merged)
    → add_all (state_of es) js ≡ ok m
    → (ds : List Entry) × Entries js ds × Accepts es ds × (m ≡ state_of (es ++ ds))
unfolding add_all
add_all-ok es [] m h = ([], Entries.nil, tt, ok_inj h)
  where
    ok_inj : ok (state_of es) ≡ ok m → m ≡ state_of (es ++ [])
    ok_inj p = rw (append-nil es) (cc)
add_all-ok es (j ∷ js) m h =
    let (next, hn, h₁) = bind-ok (add_artifact (state_of es) j) _ m h in
    let (e, i, f, en) = add_artifact-ok es j next hn in
    let (ds, is, a, em) = add_all-ok (es ++ e ∷ []) js m (subst (λ n. add_all n js ≡ ok m) en h₁) in
    (e ∷ ds, Entries.entry i is, (f, a), em ∙ ap state_of (append_assoc es (e ∷ []) ds))

add_all-of :
    (es : List Entry) (js : List Json) (ds : List Entry)
    → Entries js ds
    → Accepts es ds
    → add_all (state_of es) js ≡ ok (state_of (es ++ ds))
unfolding add_all
add_all-of es _ _ Entries.nil a = rw (append-nil es) refl
add_all-of es _ _ (Entries.entry {a = j} {e = d} {rest = js} {es = ds} i is) a =
    rw
      (
        add_artifact-of es j d i a.0,
        add_all-of (es ++ d ∷ []) js ds is a.1,
        append_assoc es (d ∷ []) ds,
      )
      refl

gather-ok :
    (es : List Entry) (ss : List Source) (m : Merged)
    → gather (state_of es) ss ≡ ok m
    → (ds : List Entry) × Loads ss ds × Accepts es ds × (m ≡ state_of (es ++ ds))
unfolding gather
gather-ok es [] m h = ([], Loads.nil, tt, ok_inj h)
  where
    ok_inj : ok (state_of es) ≡ ok m → m ≡ state_of (es ++ [])
    ok_inj p = rw (append-nil es) (cc)
gather-ok es (s ∷ ss) m h =
    let (artifacts, hl, h₁) = bind-ok (load_and_verify s) _ m h in
    let (next, hn, h₂) = bind-ok (add_all (state_of es) artifacts) _ m h₁ in
    let (front, is, a, en) = add_all-ok es artifacts next hn in
    let (back, ls, b, em) = gather-ok (es ++ front) ss m (subst (λ n. gather n ss ≡ ok m) en h₂) in
    (
      front ++ back,
      Loads.source hl is ls refl,
      Accepts-append es front back a b,
      em ∙ ap state_of (append_assoc es front back),
    )

gather-of :
    (es : List Entry) (ss : List Source) (ds : List Entry)
    → Loads ss ds
    → Accepts es ds
    → gather (state_of es) ss ≡ ok (state_of (es ++ ds))
unfolding gather
gather-of es _ _ Loads.nil a = rw (append-nil es) refl
gather-of es _ ds
      (Loads.source {s = s} {ss = ss} {artifacts = js} {front = front} {back = back} hl is ls e) a =
    let a' = subst (Accepts es) e a in
    rw
      (
        hl,
        add_all-of es js front is (Accepts-front es front back a'),
        gather-of (es ++ front) ss back ls (Accepts-back es front back a'),
        append_assoc es front back,
        e,
      )
      refl

from_gather-ok :
    (r : Result Merged) (es : List Entry)
    → from_gather r ≡ ok es
    → (m : Merged) × (r ≡ ok m) × (es ≡ sort entry_order.less m.artifacts)
unfolding from_gather
from_gather-ok (ok m) es h = (m, refl, ok_inj h)
  where
    ok_inj : {x y : List Entry} → ok x ≡ ok y → y ≡ x
    ok_inj p = cc
from_gather-ok (err f) es h = cc

-- `merge` returns exactly when the sources load and no two of their entries share the asset name,
-- the runtime tuple or the build id; the result is then the loaded entries, sorted.
pub merge_iff :
    (ss : List Source) (es : List Entry)
    → (merge ss ≡ ok es)
      ↔ ((ds : List Entry) × Loads ss ds × AllPairs Different ds × (es ≡ sort entry_order.less ds))
unfolding merge from_gather
merge_iff ss es = (
  λ h.
      let (m, g, e) = from_gather-ok (gather empty ss) es h in
      let (ds, l, a, em) = gather-ok [] ss m g in
      (
        ds,
        l,
        ((Accepts-iff [] ds).0 a).1,
        e ∙ ap (λ (n : Merged). sort entry_order.less n.artifacts) em,
      ),
  λ h.
      let (ds, l, p, e) = h in
      rw (gather-of [] ss ds l ((Accepts-iff [] ds).1 (All-empty ds, p)), e) refl,
)
