-- ===== src/Wheels/Merge/Entries.antt =====
-- What the loops of `merge` read: the entries of each source, in order.
use mathlib.Core.Path.{ap₂}
use runpod_sageattention.Base.{
  ◌≡◌, refl, sym, ap, ◌≢◌, ◌↔◌, inl, inr, eq_iff, String, true, false, some, List, [], ◌∷◌, ◌++◌,
  map, any, All, arith, Bool-cases,
}
use runpod_sageattention.Json.{Json, str, obj, get}
use runpod_sageattention.Job.Failure.{ok}
use runpod_sageattention.Job.Spec.{contains}
use runpod_sageattention.Wheels.Asset.{some_text, eq_texts}
use runpod_sageattention.Wheels.Merge.{Source, Entry, Merged, add, load_and_verify, runtime_tuple}

-- The entry of an artifact, by its keys.
pub record IsEntry (artifact : Json) (e : Entry) : Type 0 where
  pub fields : artifact ≡ obj e.artifact
  pub asset : get "asset" e.artifact ≡ str e.asset
  pub runtime : runtime_tuple e.artifact ≡ ok e.runtime
  pub build_id : some_text (get "build_id" e.artifact) ≡ some e.build_id

pub data Entries : List Json → List Entry → Type 0 where
  nil : Entries [] []
  entry :
      {a : Json} {e : Entry} {rest : List Json} {es : List Entry}
      → IsEntry a e
      → Entries rest es
      → Entries (a ∷ rest) (e ∷ es)

-- The entries of the sources, each one checked beside its wheels.
pub data Loads : List Source → List Entry → Type 0 where
  nil : Loads [] []
  source :
      {s : Source} {ss : List Source} {artifacts : List Json} {front back es : List Entry}
      → load_and_verify s ≡ ok artifacts
      → Entries artifacts front
      → Loads ss back
      → es ≡ front ++ back
      → Loads (s ∷ ss) es

-- Two entries that may stand in one manifest.
pub record Different (x y : Entry) : Type 0 where
  pub asset : x.asset ≢ y.asset
  pub runtime : x.runtime ≢ y.runtime
  pub build_id : x.build_id ≢ y.build_id

pub Different-symm : (x y : Entry) → Different x y → Different y x
Different-symm x y d = record {
  asset = λ e. d.asset (sym e);
  runtime = λ e. d.runtime (sym e);
  build_id = λ e. d.build_id (sym e);
}

-- The sets of `merge` are the keys of its artifacts.
abbrev pub state_of : List Entry → Merged
state_of es = record {
  artifacts = es;
  assets = map (λ e. e.asset) es;
  runtime_tuples = map (λ e. e.runtime) es;
  build_ids = map (λ e. e.build_id) es;
}

map-concat :
    {A B : Type 0} (f : A → B) (xs : List A) (x : A) → map f (xs ++ x ∷ []) ≡ map f xs ++ f x ∷ []
map-concat f [] x = refl
map-concat f (y ∷ xs) x = ap (◌∷◌ (f y)) (map-concat f xs x)

pub add-state_of : (es : List Entry) (e : Entry) → add (state_of es) e ≡ state_of (es ++ e ∷ [])
unfolding add
add-state_of es e =
    rw
      (
        map-concat (λ (d : Entry). d.asset) es e,
        map-concat (λ (d : Entry). d.runtime) es e,
        map-concat (λ (d : Entry). d.build_id) es e,
      )
      refl

eq_texts_iff : (xs ys : List String) → (eq_texts xs ys ≡ true) ↔ (xs ≡ ys)
unfolding eq_texts
eq_texts_iff [] [] = (λ h. refl, λ h. refl)
eq_texts_iff [] (y ∷ ys) = (λ h. cc, λ h. cc)
eq_texts_iff (x ∷ xs) [] = (λ h. cc, λ h. cc)
eq_texts_iff (x ∷ xs) (y ∷ ys) = (
  λ h. ap₂ ◌∷◌ (ground (arith, eq_iff x y)) ((eq_texts_iff xs ys).0 (ground arith)),
  λ h. ground (arith, eq_iff x y, (eq_texts_iff xs ys).1),
)

eq_texts_of_ne : (xs ys : List String) → ys ≢ xs → eq_texts xs ys ≡ false
eq_texts_of_ne xs ys n = elim (Bool-cases (eq_texts xs ys)) [
  | inl h ↦ absurd (n (sym ((eq_texts_iff xs ys).0 h)))
  | inr h ↦ h
]

-- The tests on the three sets.
abbrev pub IsFresh : List Entry → Entry → Type 0
IsFresh es e =
    (contains e.asset (map (λ d. d.asset) es) ≡ false)
    × (any (eq_texts e.runtime) (map (λ d. d.runtime) es) ≡ false)
    × (contains e.build_id (map (λ d. d.build_id) es) ≡ false)

pub IsFresh-iff : (es : List Entry) (e : Entry) → IsFresh es e ↔ All (λ d. Different d e) es
unfolding contains
IsFresh-iff [] e = (λ h. tt, λ h. (refl, refl, refl))
IsFresh-iff (d ∷ es) e = (
  λ h. (
    record {
      asset = λ p. ground (arith, eq_iff d.asset e.asset, h.0);
      runtime = λ p. ground (arith, (eq_texts_iff e.runtime d.runtime).1 (sym p), h.1);
      build_id = λ p. ground (arith, eq_iff d.build_id e.build_id, h.2);
    },
    (IsFresh-iff es e).0 (ground (arith, h.0), ground (arith, h.1), ground (arith, h.2)),
  ),
  λ h.
      let r = (IsFresh-iff es e).1 h.1 in
      (
        ground (arith, eq_iff d.asset e.asset, h.0.asset, r.0),
        ground (arith, eq_texts_of_ne e.runtime d.runtime h.0.runtime, r.1),
        ground (arith, eq_iff d.build_id e.build_id, h.0.build_id, r.2),
      ),
)
