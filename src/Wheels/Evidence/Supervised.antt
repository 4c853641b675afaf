-- ===== src/Wheels/Evidence/Supervised.antt =====
-- The supervisor of tools/pod_resources.py and scripts/validate-wheel.py agree: sampled sizes pass
-- the validator's check.
use mathlib.Core.Path.{subst}
use runpod_sageattention.Base.{
  ℕ, zero, suc, max, ◌≤◌, ◌<◌, ◌≡◌, refl, sym, ◌∙◌, Bool, true, false, none, some, List, [], ◌∷◌,
  All, filter_map, push, leb, arith,
}
use runpod_sageattention.Base.Int.{pos}
use runpod_sageattention.Json.{Json, Fields, int, get}
use runpod_sageattention.Job.Failure.{ok}
use runpod_sageattention.Resources.Group.{Details}
use runpod_sageattention.Resources.Group.Samples.{no_samples, rss, is_empty, sample_all}
use runpod_sageattention.Resources.Group.Sampled.{
  shown, shown_if, maximum, head, last, sample_all-summary,
}
use runpod_sageattention.Wheels.Evidence.Snapshot.{positive_integer, require}
use runpod_sageattention.Wheels.Evidence.Sample.{check_sizes}

-- Every kept value is positive.
shown_if-positive :
    (page_size : ℕ) (d : Details) (b : Bool) (kept : List ℕ)
    → is_empty page_size d ≡ b
    → All (λ n. 0 < n) kept
    → All (λ n. 0 < n) (push (shown_if b (rss page_size d)) kept)
shown_if-positive page_size d true kept e h = h
shown_if-positive page_size d false kept e h = (ground (arith, e), h)

shown-positive :
    (page_size : ℕ) (ds : List Details) → All (λ n. 0 < n) (filter_map (shown page_size) ds)
shown-positive page_size [] = tt
shown-positive page_size (d ∷ ds) =
    shown_if-positive page_size d (is_empty page_size d) (filter_map (shown page_size) ds) refl
      (shown-positive page_size ds)

head-bounds :
    (kept : List ℕ) (a : ℕ)
    → All (λ n. 0 < n) kept
    → head kept ≡ some a
    → (0 < a) × (a ≤ maximum kept)
unfolding maximum
head-bounds [] a p h = cc
head-bounds (n ∷ kept) a p h =
    let e : n ≡ a = cc in subst (λ x. (0 < x) × (x ≤ max n (maximum kept))) e (p.0, omega arith)

last-bounds :
    (kept : List ℕ) (n b : ℕ)
    → 0 < n
    → All (λ x. 0 < x) kept
    → last (some n) kept ≡ some b
    → (0 < b) × (b ≤ max n (maximum kept))
unfolding maximum
last-bounds [] n b q p h =
    let e : n ≡ b = cc in subst (λ x. (0 < x) × (x ≤ max n 0)) e (q, omega arith)
last-bounds (m ∷ kept) n b q p h =
    let r = last-bounds kept m b p.0 p.1 h in (r.0, omega (arith, r.1))

or_last-bounds :
    (kept : List ℕ) (b : ℕ)
    → All (λ x. 0 < x) kept
    → last none kept ≡ some b
    → (0 < b) × (b ≤ maximum kept)
unfolding maximum
or_last-bounds [] b p h = cc
or_last-bounds (n ∷ kept) b p h = last-bounds kept n b p.0 p.1 h

positive-int : (v : Json) (n : ℕ) → v ≡ int (pos n) → 0 < n → positive_integer v ≡ some n
unfolding positive_integer
positive-int v zero e h = absurd (omega (arith, h))
positive-int v (suc n) e h = rw e refl

accepted :
    (peak : Fields) (a b c : ℕ)
    → positive_integer (get "start_bytes" peak) ≡ some a
    → positive_integer (get "end_bytes" peak) ≡ some b
    → positive_integer (get "peak_bytes" peak) ≡ some c
    → leb (max a b) c ≡ true
    → check_sizes peak ≡ ok (record { start_bytes = a; end_bytes = b; peak_bytes = c })
unfolding check_sizes require
accepted peak a b c p q r h = rw (p, q, r, h) refl

-- The sizes that the supervisor has sampled, from any snapshots, pass the check of the validator
-- where its evidence states them.
pub check_sizes-sample_all :
    (page_size : ℕ) (ds : List Details) (peak : Fields) (a b : ℕ)
    → let s = sample_all page_size ds no_samples in
      s.start_bytes ≡ some a
      → s.end_bytes ≡ some b
      → get "start_bytes" peak ≡ int (pos a)
      → get "end_bytes" peak ≡ int (pos b)
      → get "peak_bytes" peak ≡ int (pos s.peak_bytes)
      → check_sizes peak ≡ ok (record { start_bytes = a; end_bytes = b; peak_bytes = s.peak_bytes })
check_sizes-sample_all page_size ds peak a b ea eb ga gb gp =
    let kept = filter_map (shown page_size) ds in
    let s = sample_all-summary page_size ds in
    let positive = shown-positive page_size ds in
    let h = head-bounds kept a positive (sym s.2 ∙ ea) in
    let l = or_last-bounds kept b positive (sym s.3 ∙ eb) in
    accepted peak a b _ (positive-int _ a ga h.0) (positive-int _ b gb l.0)
      (positive-int _ _ gp (omega (arith, h.0, h.1, s.1)))
      (le-leb _ _ (omega (arith, h.1, l.1, s.1)))
  where
    le-leb : (x y : ℕ) → x ≤ y → leb x y ≡ true
    le-leb x y p = ground arith
