-- ===== src/Base/Sorting.antt =====
-- `sorted` by a strict order that is a Boolean test, and the one list that it can return.
pub mod Laws
use mathlib.Core.List.{Permᴰ}
use mathlib.Core.Path.{◌≡◌, refl, sym, ap, ap₂, subst, ◌∙◌}
use mathlib.Core.Logic.{◌⊎◌, inl, inr}
use mathlib.Core.Bool.{Bool, true, false, not, ◌&&◌, ◌||◌}
use mathlib.Core.List.{List, [], ◌∷◌, ◌++◌}
use native.Mathlib.Omega.{arith}
use Prim.Native.Nat.{ℕ}
use runpod_sageattention.Base.Tests.{ltb, if◌then◌else◌, Bool-cases}
use runpod_sageattention.Base.Lists.{All, All-append}

-- A strict order by its test "less".
pub record StrictOrder (A : Type 0) : Type 0 where
  pub less : A → A → Bool
  pub irreflexive : (a : A) → less a a ≡ false
  pub transitive : (a b c : A) → less a b ≡ true → less b c ≡ true → less a c ≡ true

-- Two things of which neither is less are the same.
pub record TotalOrder (A : Type 0) : Type 0 where
  pub strict : StrictOrder A
  pub total : (a b : A) → strict.less a b ≡ false → strict.less b a ≡ false → a ≡ b

pub ltb_irreflexive : (a : ℕ) → ltb a a ≡ false
ltb_irreflexive a = ground arith

pub ltb_transitive : (a b c : ℕ) → ltb a b ≡ true → ltb b c ≡ true → ltb a c ≡ true
ltb_transitive a b c p q = ground arith

pub ltb_total : (a b : ℕ) → ltb a b ≡ false → ltb b a ≡ false → a ≡ b
ltb_total a b p q = ground arith

abbrev pub nat_order : TotalOrder ℕ
nat_order = record {
  strict = record { less = ltb; irreflexive = ltb_irreflexive; transitive = ltb_transitive };
  total = ltb_total;
}

-- The order of texts and tuples: the first difference decides, and a beginning is less.
abbrev pub lex_less : {A : Type 0} → (A → A → Bool) → List A → List A → Bool
lex_less less [] [] = false
lex_less less [] (y ∷ ys) = true
lex_less less (x ∷ xs) [] = false
lex_less less (x ∷ xs) (y ∷ ys) = less x y || (not (less y x) && lex_less less xs ys)

module _ {A : Type 0} (o : StrictOrder A) where
  pub asymmetric : (a b : A) → o.less a b ≡ true → o.less b a ≡ false
  asymmetric a b h = elim (Bool-cases (o.less b a)) [
    | inl g ↦ absurd (false_true (sym (o.irreflexive a) ∙ o.transitive a b a h g))
    | inr g ↦ g
  ]
    where
      false_true : false ≡ true → ⊥
      false_true e = cc

  pub lex_irreflexive : (xs : List A) → lex_less o.less xs xs ≡ false
  lex_irreflexive [] = refl
  lex_irreflexive (x ∷ xs) = ground (arith, o.irreflexive x, lex_irreflexive xs)

module _ {A : Type 0} (t : TotalOrder A) where
  pub lex_total :
      (xs ys : List A)
      → lex_less t.strict.less xs ys ≡ false
      → lex_less t.strict.less ys xs ≡ false
      → xs ≡ ys
  lex_total [] [] p q = refl
  lex_total [] (y ∷ ys) p q = cc
  lex_total (x ∷ xs) [] p q = cc
  lex_total (x ∷ xs) (y ∷ ys) p q =
      let xy : t.strict.less x y ≡ false = ground arith in
      let yx : t.strict.less y x ≡ false = ground arith in
      ap₂ ◌∷◌ (t.total x y xy yx)
        (lex_total xs ys (ground (arith, xy, yx)) (ground (arith, xy, yx)))

  pub lex_transitive :
      (xs ys zs : List A)
      → lex_less t.strict.less xs ys ≡ true
      → lex_less t.strict.less ys zs ≡ true
      → lex_less t.strict.less xs zs ≡ true
  lex_transitive [] [] zs p q = q
  lex_transitive [] (y ∷ ys) [] p q = cc
  lex_transitive [] (y ∷ ys) (z ∷ zs) p q = refl
  lex_transitive (x ∷ xs) [] zs p q = cc
  lex_transitive (x ∷ xs) (y ∷ ys) [] p q = cc
  lex_transitive (x ∷ xs) (y ∷ ys) (z ∷ zs) p q = elim (Bool-cases (t.strict.less x y)) [
    | inl xy ↦ elim (Bool-cases (t.strict.less y z)) [
      | inl yz ↦ ground (arith, t.strict.transitive x y z xy yz)
      | inr yz ↦
          let e : y ≡ z = t.total y z yz (ground (arith, yz)) in
          ground (arith, subst (λ w. t.strict.less x w ≡ true) e xy)
    ]
    | inr xy ↦
        let e : x ≡ y = t.total x y xy (ground (arith, xy)) in
        elim (Bool-cases (t.strict.less y z)) [
          | inl yz ↦ ground (arith, subst (λ w. t.strict.less w z ≡ true) (sym e) yz)
          | inr yz ↦
              let g : x ≡ z = e ∙ t.total y z yz (ground (arith, yz)) in
              let rest = lex_transitive xs ys zs (ground (arith, xy)) (ground (arith, yz)) in
              rw g (ground (arith, t.strict.irreflexive z, rest))
        ]
  ]

abbrev pub lex : {A : Type 0} → TotalOrder A → TotalOrder (List A)
lex t = record {
  strict = record {
    less = lex_less t.strict.less;
    irreflexive = lex_irreflexive t.strict;
    transitive = lex_transitive t;
  };
  total = lex_total t;
}

-- The order of things by their keys.
abbrev pub by_key : {A K : Type 0} → (A → K) → StrictOrder K → StrictOrder A
by_key key o = record {
  less = λ a b. o.less (key a) (key b);
  irreflexive = λ a. o.irreflexive (key a);
  transitive = λ a b c. o.transitive (key a) (key b) (key c);
}

module _ {A : Type 0} (less : A → A → Bool) where
  -- `x` before the first element that is not less
  unfoldable pub insert : A → List A → List A
  insert x [] = x ∷ []
  insert x (y ∷ ys) = let later = insert x ys in if less y x then y ∷ later else x ∷ y ∷ ys

  -- `sorted(xs)`, which is stable
  unfoldable pub sort : List A → List A
  unfolding insert
  sort [] = []
  sort (x ∷ xs) = insert x (sort xs)

  -- Everything later is greater.
  abbrev pub IsSorted : List A → Type 0
  IsSorted [] = Unit
  IsSorted (x ∷ xs) = All (λ y. less x y ≡ true) xs × IsSorted xs

  abbrev pub Apart : A → A → Type 0
  Apart x y = (less x y ≡ true) ⊎ (less y x ≡ true)

  abbrev pub AllApart : List A → Type 0
  AllApart [] = Unit
  AllApart (x ∷ xs) = All (Apart x) xs × AllApart xs
