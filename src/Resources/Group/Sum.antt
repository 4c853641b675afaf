-- ===== src/Resources/Group/Sum.antt =====
-- A snapshot of a process group sums the pages of its members.
use mathlib.Core.Path.{subst}
use runpod_sageattention.Base.{
  ℕ, suc, ◌+◌, ◌≡◌, refl, sym, ap, ◌∙◌, inl, inr, String, Bool, true, false, not, ◌&&◌, Option,
  none, some, List, [], ◌∷◌, ◌++◌, length, filter_map, All, All-append, arith, Option-cases, ◌==◌,
  if◌then◌else◌, str_eq,
}
use runpod_sageattention.Job.Failure.{Result, ok, refuse_if, ◌>>◌}
use runpod_sageattention.Job.Spec.{contains}
use runpod_sageattention.Resources.Group.{
  Process, Details, no_details, member_pages, add_member, add_entries, add_compiler, executable,
  collect_process_group_details, is_compiler_executable,
}

-- the total of a list
pub sum : List ℕ → ℕ
sum [] = 0
sum (n ∷ ns) = n + sum ns

refuse_if-ok :
    {A : Type 0} (t : Bool) (text : String) (r : Result A) (a : A)
    → (refuse_if t text >> r) ≡ ok a
    → (t ≡ false) × (r ≡ ok a)
refuse_if-ok true text r a h = cc
refuse_if-ok false text r a h = (refl, h)

add_entries-step :
    (group : ℕ) (leader : Option ℕ) (p : Process) (ps : List Process) (d : Details) (o : Option ℕ)
    → member_pages group p ≡ o
    → add_entries group leader (p ∷ ps) d ≡ add_entries group leader ps (add_member o leader p d)
unfolding add_entries
add_entries-step group leader p ps d o e =
    ap (λ (x : Option ℕ). add_entries group leader ps (add_member x leader p d)) e

add_entries-none : (group : ℕ) (leader : Option ℕ) (d : Details) → add_entries group leader [] d ≡ d
unfolding add_entries
add_entries-none group leader d = refl

add_member-pages :
    (n : ℕ) (leader : Option ℕ) (p : Process) (d : Details)
    → ((add_member (some n) leader p d).pages ≡ d.pages + n)
      × ((add_member (some n) leader p d).count ≡ suc d.count)
unfolding add_member
add_member-pages n leader p d = (refl, refl)

add_member-none : (leader : Option ℕ) (p : Process) (d : Details) → add_member none leader p d ≡ d
unfolding add_member
add_member-none leader p d = refl

-- The pages and the count grow by those of the members.
abbrev Grows : Details → Details → List ℕ → Type 0
Grows d t kept = (t.pages ≡ d.pages + sum kept) × (t.count ≡ d.count + length kept)

Grows-push :
    (d t : Details) (n : ℕ) (leader : Option ℕ) (p : Process) (kept : List ℕ)
    → Grows (add_member (some n) leader p d) t kept
    → Grows d t (n ∷ kept)
unfolding sum
Grows-push d t n leader p kept g =
    let m = add_member-pages n leader p d in (omega (arith, g.0, m.0), omega (arith, g.1, m.1))

add_entries-Grows :
    (group : ℕ) (leader : Option ℕ) (ps : List Process) (d : Details)
    → Grows d (add_entries group leader ps d) (filter_map (member_pages group) ps)
unfolding sum
add_entries-Grows group leader [] d =
    rw (add_entries-none group leader d) (omega arith, omega arith)
add_entries-Grows group leader (p ∷ ps) d = elim (Option-cases (member_pages group p)) [
  | inl e ↦
      rw (add_entries-step group leader p ps d none e, add_member-none leader p d, e)
        (add_entries-Grows group leader ps d)
  | inr w ↦
      let (n, e) = w in
      rw (add_entries-step group leader p ps d (some n) e, e)
        (Grows-push d (add_entries group leader ps (add_member (some n) leader p d)) n leader p
          (filter_map (member_pages group) ps)
          (add_entries-Grows group leader ps (add_member (some n) leader p d)))
]

pub AreCompilers : List String → Type 0
AreCompilers names = All (λ name. is_compiler_executable name ≡ true) names

add_compiler-AreCompilers :
    (name : String) (names : List String)
    → AreCompilers names
    → AreCompilers (add_compiler name names)
unfolding AreCompilers add_compiler
add_compiler-AreCompilers name names h =
    by_test (str_eq name "") (is_compiler_executable name) (contains name names) refl
  where
    by_test :
        (a b c : Bool)
        → is_compiler_executable name ≡ b
        → AreCompilers (if not a && (b && not c) then names ++ name ∷ [] else names)
    by_test true b c e = h
    by_test false false c e = h
    by_test false true true e = h
    by_test false true false e =
        All-append (λ n. is_compiler_executable n ≡ true) names (name ∷ []) h (e, tt)

add_member-AreCompilers :
    (o : Option ℕ) (leader : Option ℕ) (p : Process) (d : Details)
    → AreCompilers d.compilers
    → AreCompilers (add_member o leader p d).compilers
unfolding add_member
add_member-AreCompilers none leader p d h = h
add_member-AreCompilers (some n) leader p d h =
    add_compiler-AreCompilers (executable p.exe) d.compilers h

add_entries-AreCompilers :
    (group : ℕ) (leader : Option ℕ) (ps : List Process) (d : Details)
    → AreCompilers d.compilers
    → AreCompilers (add_entries group leader ps d).compilers
add_entries-AreCompilers group leader [] d h = rw (add_entries-none group leader d) h
add_entries-AreCompilers group leader (p ∷ ps) d h =
    rw (add_entries-step group leader p ps d (member_pages group p) refl) (
      add_entries-AreCompilers group leader ps (add_member (member_pages group p) leader p d)
        (add_member-AreCompilers (member_pages group p) leader p d h))

add_zero : (n : ℕ) → 0 + n ≡ n
add_zero n = omega arith

-- A snapshot counts the members of the group whose files can be read, sums exactly their pages, and
-- records only names of compilers.
pub collect_process_group_details-sum :
    (group page_size : ℕ) (leader : Option ℕ) (entries : List Process) (d : Details)
    → collect_process_group_details group page_size leader (some entries) ≡ ok d
    → (d.pages ≡ sum (filter_map (member_pages group) entries))
      × (d.count ≡ length (filter_map (member_pages group) entries))
      × AreCompilers d.compilers
unfolding collect_process_group_details AreCompilers
collect_process_group_details-sum group page_size leader entries d h =
    let (zero_group, h₁) = refuse_if-ok (group == 0) _ _ d h in
    let (zero_page, h₂) = refuse_if-ok (page_size == 0) _ _ d h₁ in
    let sums = add_entries-Grows group leader entries no_details in
    let same : add_entries group leader entries no_details ≡ d = ok_inj h₂ in
    (
      ap (λ (x : Details). x.pages) (sym same)
          ∙ (sums.0 ∙ add_zero (sum (filter_map (member_pages group) entries))),
      ap (λ (x : Details). x.count) (sym same)
          ∙ (sums.1 ∙ add_zero (length (filter_map (member_pages group) entries))),
      subst (λ (x : Details). AreCompilers x.compilers) same
          (add_entries-AreCompilers group leader entries no_details tt),
    )
  where
    ok_inj : {x y : Details} → ok x ≡ ok y → x ≡ y
    ok_inj e = cc
