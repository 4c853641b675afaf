-- ===== src/Wheels/Select/Sound.antt =====
-- What `select_artifact` returns: the one artifact that matches, and one that can be used.
use mathlib.Core.Path.{subst}
use mathlib.Core.List.{Memᴰ}
use mathlib.Core.List.Memᴰ
use runpod_sageattention.Base.{
  ◌≡◌, refl, sym, ap, ◌∙◌, ◌⊎◌, inl, inr, String, Bool, true, false, not, Option, none, some, List,
  [], ◌∷◌, any,
}
use runpod_sageattention.Json.{Json, Fields, obj, get}
use runpod_sageattention.Job.Failure.{ok, bind-ok, raise_if-ok}
use runpod_sageattention.Job.Spec.{contains}
use runpod_sageattention.Wheels.Asset.{as_dict, wheel_name}
use runpod_sageattention.Wheels.Merge.Batch.{as_dict-ok}
use runpod_sageattention.Wheels.Merge.Verified.{not-false}
use runpod_sageattention.Wheels.Select.{
  Environment, is_match, keep, matches, single, select, supported_capabilities, is_digest,
  is_some_name, select_artifact,
}

-- What an artifact needs beside its environment: the visible devices, a digest and a safe name.
pub record IsUsable (env : Environment) (artifact : Fields) : Type 0 where
  pub capabilities : List String
  pub supported : supported_capabilities artifact ≡ ok capabilities
  pub covers : any (λ c. not (contains c capabilities)) env.gpu_capabilities ≡ false
  pub digest : is_digest (get "sha256" artifact) ≡ true
  pub name : is_some_name (wheel_name (get "asset" artifact)) ≡ true

-- An artifact of the list that matches, where every other one that matches is the same.
pub record IsOnlyMatch (env : Environment) (artifacts : List Json) (artifact : Fields)
    : Type 0 where
  pub present : Memᴰ (obj artifact) artifacts
  pub matching : is_match env artifact ≡ true
  pub only :
      (other : Fields) → Memᴰ (obj other) artifacts → is_match env other ≡ true → other ≡ artifact

single-some : (fs : List Fields) (f : Fields) → single fs ≡ some f → fs ≡ f ∷ []
single-some [] f h = cc
single-some (g ∷ []) f h = cc
single-some (g ∷ k ∷ fs) f h = cc

select-ok : {A : Type 0} (t : String) (o : Option A) (a : A) → select t o ≡ ok a → o ≡ some a
select-ok t none a h = cc
select-ok t (some b) a h = cc

matches-step :
    (env : Environment) (j : Json) (rest : List Json) (found : List Fields)
    → matches env (j ∷ rest) ≡ ok found
    → (f : Fields) × (later : List Fields) × (j ≡ obj f)
      × (matches env rest ≡ ok later)
      × (found ≡ keep (is_match env f) f later)
unfolding matches
matches-step env j rest found h =
    let (f, hj, h₁) = bind-ok (as_dict j) _ found h in
    let (later, hl, h₂) = bind-ok (matches env rest) _ found h₁ in
    (f, later, as_dict-ok j f hj, hl, ok_inj h₂)
  where
    ok_inj : {x y : List Fields} → ok x ≡ ok y → y ≡ x
    ok_inj p = cc

keep-Memᴰ :
    (b : Bool) (f g : Fields) (later : List Fields)
    → Memᴰ g (keep b f later)
    → ((g ≡ f) × (b ≡ true)) ⊎ Memᴰ g later
keep-Memᴰ true f g later (Memᴰ.head e) = inl (e, refl)
keep-Memᴰ true f g later (Memᴰ.tail i) = inr i
keep-Memᴰ false f g later i = inr i

keep-kept : (b : Bool) (f g : Fields) (later : List Fields) → Memᴰ g later → Memᴰ g (keep b f later)
keep-kept true f g later i = Memᴰ.tail i
keep-kept false f g later i = i

matches-nil : (env : Environment) (found : List Fields) → matches env [] ≡ ok found → found ≡ []
unfolding matches
matches-nil env found h = cc

matches_sound :
    (env : Environment) (js : List Json) (found : List Fields) (g : Fields)
    → matches env js ≡ ok found
    → Memᴰ g found
    → Memᴰ (obj g) js × (is_match env g ≡ true)
matches_sound env [] found g h i =
    absurd (Memᴰ.not-nil (subst (Memᴰ g) (matches-nil env found h) i))
matches_sound env (j ∷ js) found g h i =
    let (f, later, e, hl, q) = matches-step env j js found h in
    elim (keep-Memᴰ (is_match env f) f g later (subst (Memᴰ g) q i)) [
      | inl (p, m) ↦ (Memᴰ.head (ap obj p ∙ sym e), subst (λ x. is_match env x ≡ true) (sym p) m)
      | inr k ↦ let (a, b) = matches_sound env js later g hl k in (Memᴰ.tail a, b)
    ]

matches_complete :
    (env : Environment) (js : List Json) (found : List Fields) (g : Fields)
    → matches env js ≡ ok found
    → Memᴰ (obj g) js
    → is_match env g ≡ true
    → Memᴰ g found
matches_complete env [] found g h i m = absurd (Memᴰ.not-nil i)
matches_complete env (j ∷ js) found g h (Memᴰ.head e) m =
    let (f, later, ej, hl, q) = matches-step env j js found h in
    let same : g ≡ f = obj_inj (e ∙ ej) in
    subst (Memᴰ g) (sym q) (
      subst (λ b. Memᴰ g (keep b f later)) (sym (subst (λ x. is_match env x ≡ true) same m))
        (Memᴰ.head same))
  where
    obj_inj : {x y : Fields} → obj x ≡ obj y → x ≡ y
    obj_inj p = cc
matches_complete env (j ∷ js) found g h (Memᴰ.tail i) m =
    let (f, later, e, hl, q) = matches-step env j js found h in
    subst (Memᴰ g) (sym q)
      (keep-kept (is_match env f) f g later (matches_complete env js later g hl i m))

-- A selected artifact stands in the manifest, matches the environment in every field, is the only
-- one that does, and can be used.
pub select_artifact-IsOnlyMatch :
    (artifacts : List Json) (env : Environment) (f : Fields)
    → select_artifact artifacts env ≡ ok f
    → IsOnlyMatch env artifacts f × IsUsable env f
unfolding select_artifact
select_artifact-IsOnlyMatch artifacts env f h =
    let (found, hm, h₁) = bind-ok (matches env artifacts) _ f h in
    let (g, hs, h₂) = bind-ok (select _ (single found)) _ f h₁ in
    let (supported, hc, h₃) = bind-ok (supported_capabilities g) _ f h₂ in
    let (covers, h₄) = raise_if-ok _ _ _ f h₃ in
    let (digest, h₅) = raise_if-ok _ _ _ f h₄ in
    let (name, h₆) = raise_if-ok _ _ _ f h₅ in
    let one : found ≡ g ∷ [] = single-some found g (select-ok _ (single found) g hs) in
    let (there, m) =
      matches_sound env artifacts found g hm (subst (Memᴰ g) (sym one) (Memᴰ.head refl)) in
    subst (λ x. IsOnlyMatch env artifacts x × IsUsable env x) (ok_inj h₆)
      (
        record {
          present = there;
          matching = m;
          only = λ other i n.
              Memᴰ.eq_of_singleton
                (subst (Memᴰ other) one (matches_complete env artifacts found other hm i n));
        },
        record {
          capabilities = supported;
          supported = hc;
          covers = covers;
          digest = not-false _ digest;
          name = not-false _ name;
        },
      )
  where
    ok_inj : {x y : Fields} → ok x ≡ ok y → x ≡ y
    ok_inj p = cc
