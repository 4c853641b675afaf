-- ===== src/Wheels/Merge/Order.antt =====
-- The order of a merged manifest: strictly ascending, and independent of the order of the sources.
use mathlib.Core.Path.{subst, ap₂}
use mathlib.Core.List.{Permᴰ}
use mathlib.Core.List.Permᴰ
use text.Mathlib.TextEquality.{Char-path}
use runpod_sageattention.Base.{
  ◌≡◌, refl, sym, ap, ◌∙◌, inl, inr, String, List, [], ◌∷◌, ◌++◌, map, All, AllPairs, Bool-cases,
}
use runpod_sageattention.Base.Text.{codes}
use runpod_sageattention.Base.Sorting.{lex, IsSorted, Apart, AllApart}
use runpod_sageattention.Base.Sorting.Laws.{All-map, All-perm, sort-IsSorted, sort-eq_of_perm}
use runpod_sageattention.Job.Failure.{ok}
use runpod_sageattention.Wheels.Asset.{text_order}
use runpod_sageattention.Wheels.Merge.{Source, Entry, load_and_verify, merge, entry_order, sort_key}
use runpod_sageattention.Wheels.Merge.Entries.{Loads, Different, Different-symm}
use runpod_sageattention.Wheels.Merge.Batch.{merge_iff}

∷-inj : {A : Type 0} {x y : A} {xs ys : List A} → x ∷ xs ≡ y ∷ ys → (x ≡ y) × (xs ≡ ys)
∷-inj e = (cc, cc)

codes_inj : (s t : String) → codes s ≡ codes t → s ≡ t
codes_inj String.[] String.[] e = refl
codes_inj String.[] (String.◌∷◌ d t) e = cc
codes_inj (String.◌∷◌ c s) String.[] e = cc
codes_inj (String.◌∷◌ c s) (String.◌∷◌ d t) e =
    ap₂ String.◌∷◌ (Char-path c d (∷-inj e).0) (codes_inj s t (∷-inj e).1)

-- all but the last text
keys_inj :
    (xs ys : List String) (a b : String)
    → map codes (xs ++ a ∷ []) ≡ map codes (ys ++ b ∷ [])
    → xs ≡ ys
keys_inj [] [] a b e = refl
keys_inj [] (y ∷ []) a b e = cc
keys_inj [] (y ∷ z ∷ ys) a b e = cc
keys_inj (x ∷ []) [] a b e = cc
keys_inj (x ∷ z ∷ xs) [] a b e = cc
keys_inj (x ∷ xs) (y ∷ ys) a b e =
    ap₂ ◌∷◌ (codes_inj x y (∷-inj e).0) (keys_inj xs ys a b (∷-inj e).1)

Apart-of_Different : (x y : Entry) → Different x y → Apart entry_order.less x y
Apart-of_Different x y d = elim (Bool-cases (entry_order.less x y)) [
  | inl l ↦ inl l
  | inr l ↦ elim (Bool-cases (entry_order.less y x)) [
    | inl g ↦ inr g
    | inr g ↦ absurd (
        d.runtime (
          keys_inj x.runtime y.runtime x.asset y.asset
            ((lex text_order).total (sort_key x) (sort_key y) l g)))
  ]
]

all_apart : (es : List Entry) → AllPairs Different es → AllApart entry_order.less es
all_apart [] h = tt
all_apart (e ∷ es) h = (All-map (Apart-of_Different e) es h.0, all_apart es h.1)

-- Where `merge` returns, its entries ascend strictly by runtime tuple and asset, as texts.
pub merge-IsSorted :
    (ss : List Source) (es : List Entry) → merge ss ≡ ok es → IsSorted entry_order.less es
merge-IsSorted ss es h =
    let (ds, l, p, e) = (merge_iff ss es).0 h in
    subst (IsSorted entry_order.less) (sym e) (sort-IsSorted entry_order ds (all_apart ds p))

pub AllPairs-perm :
    {xs ys : List Entry} → Permᴰ xs ys → AllPairs Different xs → AllPairs Different ys
AllPairs-perm Permᴰ.nil h = tt
AllPairs-perm (Permᴰ.cons {l₁ = l} e d) h =
    (All-perm (Different _) d (subst (λ x. All (Different x) l) e h.0), AllPairs-perm d h.1)
AllPairs-perm (Permᴰ.swap {b} {b' = d} {l} e g) h =
    subst (λ y. AllPairs Different (y ∷ d ∷ l)) g
      (subst (λ x. AllPairs Different (b ∷ x ∷ l)) e
        ((Different-symm _ _ h.0.0, h.1.0), (h.0.1, h.1.1)))
AllPairs-perm (Permᴰ.trans d f) h = AllPairs-perm f (AllPairs-perm d h)

exchange : {A : Type 0} (xs ys zs : List A) → Permᴰ (xs ++ (ys ++ zs)) (ys ++ (xs ++ zs))
exchange [] ys zs = Permᴰ.refl (ys ++ zs)
exchange (x ∷ xs) ys zs =
    Permᴰ.trans (Permᴰ.cons refl (exchange xs ys zs)) (Permᴰ.symm (Permᴰ.middle x ys (xs ++ zs)))

Loads-perm :
    {ss ts : List Source}
    → Permᴰ ss ts
    → (ds : List Entry) → Loads ss ds
    → (gs : List Entry) × Loads ts gs × Permᴰ ds gs
Loads-perm Permᴰ.nil ds l = (ds, l, Permᴰ.refl ds)
Loads-perm (Permᴰ.cons {b = t} e p) ds
      (Loads.source {artifacts = js} {front = front} {back = back} v is l q) =
    let (gs, l₁, d) = Loads-perm p back l in
    (
      front ++ gs,
      Loads.source (subst (λ s. load_and_verify s ≡ ok js) e v) is l₁ refl,
      subst (λ x. Permᴰ x (front ++ gs)) (sym q) (Permᴰ.append_left front d),
    )
Loads-perm (Permᴰ.swap e g) ds
      (Loads.source {artifacts = js} {front = front} v is
        (Loads.source {artifacts = ks} {front = next} {back = back} w ks_is l r)
        q) =
    (
      next ++ (front ++ back),
      Loads.source (subst (λ s. load_and_verify s ≡ ok ks) g w) ks_is
          (Loads.source (subst (λ s. load_and_verify s ≡ ok js) e v) is l refl) refl,
      subst (λ x. Permᴰ x (next ++ (front ++ back))) (sym (q ∙ ap (◌++◌ front) r))
          (exchange front next back),
    )
Loads-perm (Permᴰ.trans p q) ds l =
    let (gs, l₁, d) = Loads-perm p ds l in
    let (hs, l₂, f) = Loads-perm q gs l₁ in (hs, l₂, Permᴰ.trans d f)

-- A merge that returns has the same result for every order of its manifests.
pub merge-perm :
    (ss ts : List Source) (es : List Entry) → Permᴰ ss ts → merge ss ≡ ok es → merge ts ≡ ok es
merge-perm ss ts es p h =
    let (ds, l, d, e) = (merge_iff ss es).0 h in
    let (gs, l₁, f) = Loads-perm p ds l in
    (merge_iff ts es).1
      (gs, l₁, AllPairs-perm f d, e ∙ sort-eq_of_perm entry_order f (all_apart ds d))
