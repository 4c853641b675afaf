-- ===== src/Base/Sorting/Laws.antt =====
-- Sorting things that are apart: the result is ascending, a permutation of the input, and the only
-- such list.
use mathlib.Core.List.{Permᴰ}
use mathlib.Core.List.Permᴰ
use mathlib.Core.Path.{◌≡◌, refl, sym, ap, ap₂, subst, ◌∙◌}
use mathlib.Core.Logic.{inl, inr}
use mathlib.Core.Bool.{true, false}
use mathlib.Core.List.{List, [], ◌∷◌}
use native.Mathlib.Omega.{arith}
use runpod_sageattention.Base.Tests.{Bool-cases}
use runpod_sageattention.Base.Lists.{All}
use runpod_sageattention.Base.Sorting.{
  StrictOrder, asymmetric, insert, sort, IsSorted, Apart, AllApart,
}

module _ {A : Type 0} where
  pub All-perm : (P : A → Type 0) {xs ys : List A} → Permᴰ xs ys → All P xs → All P ys
  All-perm P Permᴰ.nil h = tt
  All-perm P (Permᴰ.cons e d) h = (subst P e h.0, All-perm P d h.1)
  All-perm P (Permᴰ.swap e g) h = (subst P g h.1.0, (subst P e h.0, h.1.1))
  All-perm P (Permᴰ.trans d f) h = All-perm P f (All-perm P d h)

  pub All-map : {P Q : A → Type 0} → ((x : A) → P x → Q x) → (xs : List A) → All P xs → All Q xs
  All-map f [] h = tt
  All-map f (x ∷ xs) h = (f x h.0, All-map f xs h.1)

  module _ (o : StrictOrder A) where
    Apart-symm : {x y : A} → Apart o.less x y → Apart o.less y x
    Apart-symm (inl h) = inr h
    Apart-symm (inr h) = inl h

    pub AllApart-perm : {xs ys : List A} → Permᴰ xs ys → AllApart o.less xs → AllApart o.less ys
    AllApart-perm Permᴰ.nil h = tt
    AllApart-perm (Permᴰ.cons {l₁ = l} e d) h = (
      All-perm (Apart o.less _) d (subst (λ x. All (Apart o.less x) l) e h.0),
      AllApart-perm d h.1,
    )
    AllApart-perm (Permᴰ.swap {b} {b' = d} {l} e g) h =
        subst (λ y. AllApart o.less (y ∷ d ∷ l)) g
          (subst (λ x. AllApart o.less (b ∷ x ∷ l)) e ((Apart-symm h.0.0, h.1.0), (h.0.1, h.1.1)))
    AllApart-perm (Permᴰ.trans d f) h = AllApart-perm f (AllApart-perm d h)

    pub insert-perm : (x : A) (l : List A) → Permᴰ (insert o.less x l) (x ∷ l)
    unfolding insert
    insert-perm x [] = Permᴰ.refl (x ∷ [])
    insert-perm x (y ∷ ys) = elim (Bool-cases (o.less y x)) [
      | inl e ↦ rw e (Permᴰ.trans (Permᴰ.cons refl (insert-perm x ys)) (Permᴰ.swap refl refl))
      | inr e ↦ rw e (Permᴰ.refl (x ∷ y ∷ ys))
    ]

    pub sort-perm : (l : List A) → Permᴰ (sort o.less l) l
    unfolding sort
    sort-perm [] = Permᴰ.nil
    sort-perm (x ∷ l) = Permᴰ.trans (insert-perm x (sort o.less l)) (Permᴰ.cons refl (sort-perm l))

    insert-IsSorted :
        (x : A) (l : List A)
        → All (Apart o.less x) l
        → IsSorted o.less l
        → IsSorted o.less (insert o.less x l)
    unfolding insert
    insert-IsSorted x [] a s = (tt, tt)
    insert-IsSorted x (y ∷ ys) a s = elim (Bool-cases (o.less y x)) [
      | inl e ↦ rw e (
        All-perm (λ z. o.less y z ≡ true) (Permᴰ.symm (insert-perm x ys)) (e, s.0),
        insert-IsSorted x ys a.1 s.1,
      )
      | inr e ↦
          let xy : o.less x y ≡ true = ground (arith, a.0, e) in
          rw e ((xy, All-map (λ z. o.transitive x y z xy) ys s.0), s)
    ]

    pub sort-IsSorted : (l : List A) → AllApart o.less l → IsSorted o.less (sort o.less l)
    unfolding sort
    sort-IsSorted [] h = tt
    sort-IsSorted (x ∷ l) h =
        insert-IsSorted x (sort o.less l) (All-perm (Apart o.less x) (Permᴰ.symm (sort-perm l)) h.0)
          (sort-IsSorted l h.1)

    insert_past :
        (x y : A) (ys : List A)
        → o.less y x ≡ true
        → insert o.less x (y ∷ ys) ≡ y ∷ insert o.less x ys
    unfolding insert
    insert_past x y ys h = rw h refl

    insert_here :
        (x y : A) (ys : List A) → o.less y x ≡ false → insert o.less x (y ∷ ys) ≡ x ∷ y ∷ ys
    unfolding insert
    insert_here x y ys h = rw h refl

    insert_two :
        (a b : A)
        → o.less a b ≡ true
        → insert o.less a (insert o.less b []) ≡ insert o.less b (insert o.less a [])
    unfolding insert
    insert_two a b h = rw (h, asymmetric o a b h) refl

    insert_comm :
        (a b : A) (l : List A)
        → o.less a b ≡ true
        → insert o.less a (insert o.less b l) ≡ insert o.less b (insert o.less a l)
    insert_comm a b [] h = insert_two a b h
    insert_comm a b (y ∷ ys) h = elim (Bool-cases (o.less y a)) [
      | inl ya ↦
          let yb = o.transitive y a b ya h in
          rw
            (
              insert_past b y ys yb,
              insert_past a y ys ya,
              insert_past a y (insert o.less b ys) ya,
              insert_past b y (insert o.less a ys) yb,
            )
            (ap (◌∷◌ y) (insert_comm a b ys h))
      | inr na ↦ elim (Bool-cases (o.less y b)) [
        | inl yb ↦
            rw
              (
                insert_past b y ys yb,
                insert_here a y ys na,
                insert_here a y (insert o.less b ys) na,
                insert_past b a (y ∷ ys) h,
                insert_past b y ys yb,
              )
              refl
        | inr nb ↦
            rw
              (
                insert_here b y ys nb,
                insert_here a y ys na,
                insert_here a b (y ∷ ys) (asymmetric o a b h),
                insert_past b a (y ∷ ys) h,
                insert_here b y ys nb,
              )
              refl
      ]
    ]

    pub sort-eq_of_perm :
        {xs ys : List A} → Permᴰ xs ys → AllApart o.less xs → sort o.less xs ≡ sort o.less ys
    unfolding sort
    sort-eq_of_perm Permᴰ.nil h = refl
    sort-eq_of_perm (Permᴰ.cons e d) h = ap₂ (insert o.less) e (sort-eq_of_perm d h.1)
    sort-eq_of_perm (Permᴰ.swap {a} {b} {l} e g) h =
        either h.0.0 ∙ ap₂ (λ x y. insert o.less x (insert o.less y (sort o.less l))) g e
      where
        either :
            Apart o.less a b
            → insert o.less a (insert o.less b (sort o.less l))
              ≡ insert o.less b (insert o.less a (sort o.less l))
        either (inl ab) = insert_comm a b (sort o.less l) ab
        either (inr ba) = sym (insert_comm b a (sort o.less l) ba)
    sort-eq_of_perm (Permᴰ.trans d f) h =
        sort-eq_of_perm d h ∙ sort-eq_of_perm f (AllApart-perm d h)
