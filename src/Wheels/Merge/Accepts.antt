-- ===== src/Wheels/Merge/Accepts.antt =====
-- The tests of `merge` as they run, each entry against those before it, and as a property of all
-- pairs.
use mathlib.Core.Path.{subst}
use mathlib.Core.List.{append_assoc, append-nil}
use runpod_sageattention.Base.{sym, ◌↔◌, List, [], ◌∷◌, ◌++◌, All, AllPairs}
use runpod_sageattention.Base.Sorting.Laws.{All-map}
use runpod_sageattention.Wheels.Merge.{Entry}
use runpod_sageattention.Wheels.Merge.Entries.{Different}

-- Each entry differs from what is there before it.
abbrev pub Accepts : List Entry → List Entry → Type 0
Accepts es [] = Unit
Accepts es (d ∷ ds) = All (λ c. Different c d) es × Accepts (es ++ d ∷ []) ds

pub Accepts-append :
    (es front back : List Entry)
    → Accepts es front
    → Accepts (es ++ front) back
    → Accepts es (front ++ back)
Accepts-append es [] back p q = subst (λ l. Accepts l back) (append-nil es) q
Accepts-append es (d ∷ front) back p q = (
  p.0,
  Accepts-append (es ++ d ∷ []) front back p.1
      (subst (λ l. Accepts l back) (sym (append_assoc es (d ∷ []) front)) q),
)

pub Accepts-front : (es front back : List Entry) → Accepts es (front ++ back) → Accepts es front
Accepts-front es [] back p = tt
Accepts-front es (d ∷ front) back p = (p.0, Accepts-front (es ++ d ∷ []) front back p.1)

pub Accepts-back :
    (es front back : List Entry) → Accepts es (front ++ back) → Accepts (es ++ front) back
Accepts-back es [] back p = subst (λ l. Accepts l back) (sym (append-nil es)) p
Accepts-back es (d ∷ front) back p =
    subst (λ l. Accepts l back) (append_assoc es (d ∷ []) front)
      (Accepts-back (es ++ d ∷ []) front back p.1)

All-concat_iff :
    {A : Type 0} (P : A → Type 0) (xs : List A) (x : A) → All P (xs ++ x ∷ []) ↔ All P xs × P x
All-concat_iff P [] x = (λ h. (tt, h.0), λ h. (h.1, tt))
All-concat_iff P (y ∷ xs) x = (
  λ h. let r = (All-concat_iff P xs x).0 h.1 in ((h.0, r.0), r.1),
  λ h. (h.0.0, (All-concat_iff P xs x).1 (h.0.1, h.1)),
)

pub All-zip :
    {A : Type 0} (P Q : A → Type 0) (xs : List A) → All P xs → All Q xs → All (λ x. P x × Q x) xs
All-zip P Q [] p q = tt
All-zip P Q (x ∷ xs) p q = ((p.0, q.0), All-zip P Q xs p.1 q.1)

pub Accepts-iff :
    (es ds : List Entry)
    → Accepts es ds ↔ (All (λ d. All (λ c. Different c d) es) ds × AllPairs Different ds)
Accepts-iff es [] = (λ h. (tt, tt), λ h. tt)
Accepts-iff es (d ∷ ds) = (
  λ h.
      let (back, pairs) = (Accepts-iff (es ++ d ∷ []) ds).0 h.1 in
      (
        (h.0, All-map (λ x q. (split x q).0) ds back),
        (All-map (λ x q. (split x q).1) ds back, pairs),
      ),
  λ h. (
    h.0.0,
    (Accepts-iff (es ++ d ∷ []) ds).1 (
      All-map (λ x q. (All-concat_iff (λ c. Different c x) es d).1 q) ds
          (All-zip (λ x. All (λ c. Different c x) es) (Different d) ds h.0.1 h.1.0),
      h.1.1,
    ),
  ),
)
  where
    split :
        (x : Entry)
        → All (λ c. Different c x) (es ++ d ∷ [])
        → All (λ c. Different c x) es × Different d x
    split x = (All-concat_iff (λ c. Different c x) es d).0

pub All-empty : (ds : List Entry) → All (λ d. All (λ c. Different c d) []) ds
All-empty [] = tt
All-empty (d ∷ ds) = (tt, All-empty ds)
