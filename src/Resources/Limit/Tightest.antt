-- ===== src/Resources/Limit/Tightest.antt =====
-- `_find_effective_limit` finds the tightest visible limit, and the outermost directory that has it.
use mathlib.Core.Path.{subst}
use mathlib.Core.Option.{some-injective}
use runpod_sageattention.Base.{
  ℕ, ◌≤◌, ◌<◌, ◌≡◌, refl, sym, ap, ◌∙◌, ◌⊎◌, inl, inr, String, true, false, Option, none, some,
  List, [], ◌∷◌, ◌++◌, arith, leb, ltb, All, Bool-cases,
}
use runpod_sageattention.Resources.Files.{FilePath, Files, walk_ancestors, read_limit}
use runpod_sageattention.Resources.Limit.{
  CgroupLocation, Found, take_limit, find_limit, host_bound, or_zero, find_effective_limit,
}

-- `n` bounds the limit read from a directory, if there is one.
abbrev pub AtMost : ℕ → Option ℕ → Type 0
AtMost n none = Unit
AtMost n (some m) = n ≤ m

abbrev pub Below : ℕ → Option ℕ → Type 0
Below n none = Unit
Below n (some m) = n < m

leb→le : (a b : ℕ) → leb a b ≡ true → a ≤ b
leb→le a b h = ground arith

module _ (files : Files) (name : String) where
  abbrev limit_in : FilePath → Option ℕ
  limit_in d = read_limit files (name ∷ d)

  -- The directories split at the source: its limit is the result, nothing further in is tighter,
  -- and everything further out is looser.
  pub record IsSource (ds : List FilePath) (n : ℕ) (d : FilePath) : Type 0 where
    pub inner : List FilePath
    pub outer : List FilePath
    pub split : ds ≡ inner ++ d ∷ outer
    pub attained : limit_in d ≡ some n
    pub inner_bound : All (λ c. AtMost n (limit_in c)) inner
    pub outer_bound : All (λ c. Below n (limit_in c)) outer

  -- What the loop returns, from what it started with.
  abbrev pub Tightest : List FilePath → Found → Found → Type 0
  Tightest ds (e, s) (none, source) = (e ≡ none) × (source ≡ s) × All (λ d. limit_in d ≡ none) ds
  Tightest ds (e, s) (some n, source) =
      AtMost n e
      × (((e ≡ some n) × (source ≡ s) × All (λ d. Below n (limit_in d)) ds)
          ⊎ ((d : FilePath) × (source ≡ some d) × IsSource ds n d))

  -- One more directory that is passed on the way to the source.
  IsSource-cons :
      (d : FilePath) (ds : List FilePath) (n : ℕ) (c : FilePath)
      → AtMost n (limit_in d)
      → IsSource ds n c
      → IsSource (d ∷ ds) n c
  IsSource-cons d ds n c bound h = record {
    inner = d ∷ h.inner;
    outer = h.outer;
    split = ap (λ t. d ∷ t) h.split;
    attained = h.attained;
    inner_bound = (bound, h.inner_bound);
    outer_bound = h.outer_bound;
  }

  -- A directory whose limit is not taken.
  passed :
      (d : FilePath) (ds : List FilePath) (e : Option ℕ) (s : Option FilePath) (n : ℕ)
      (source : Option FilePath)
      → (e ≡ some n → Below n (limit_in d))
      → AtMost n (limit_in d)
      → Tightest ds (e, s) (some n, source)
      → Tightest (d ∷ ds) (e, s) (some n, source)
  passed d ds e s n source below bound (am, inl (p, q, all)) = (am, inl (p, q, (below p, all)))
  passed d ds e s n source below bound (am, inr (c, q, h)) =
      (am, inr (c, q, IsSource-cons d ds n c bound h))

  -- A directory whose limit is the tightest so far.
  taken :
      (d : FilePath) (ds : List FilePath) (e : Option ℕ) (s : Option FilePath) (m n : ℕ)
      (source : Option FilePath)
      → limit_in d ≡ some m
      → AtMost m e
      → Tightest ds (some m, some d) (some n, source)
      → Tightest (d ∷ ds) (e, s) (some n, source)
  taken d ds e s m n source eq tight (am, inl (p, q, all)) = (
    looser e tight,
    inr (
      d,
      q,
      record {
        inner = [];
        outer = ds;
        split = refl;
        attained = eq ∙ p;
        inner_bound = tt;
        outer_bound = all;
      },
    ),
  )
    where
      looser : (e : Option ℕ) → AtMost m e → AtMost n e
      looser none h = tt
      looser (some k) h = omega arith
  taken d ds e s m n source eq tight (am, inr (c, q, h)) =
      (looser e tight, inr (c, q, IsSource-cons d ds n c (rw eq am) h))
    where
      looser : (e : Option ℕ) → AtMost m e → AtMost n e
      looser none h = tt
      looser (some k) h = omega arith

  step :
      (d : FilePath) (ds : List FilePath) (e : Option ℕ) (s : Option FilePath) (l : Option ℕ)
      (found : Found)
      → limit_in d ≡ l
      → Tightest ds (take_limit d l (e, s)) found
      → Tightest (d ∷ ds) (e, s) found
  step d ds e s none (none, source) eq h = (h.0, h.1, (eq, h.2))
  step d ds e s none (some n, source) eq h = passed d ds e s n source (λ p. rw eq tt) (rw eq tt) h
  step d ds none s (some m) (none, source) eq h = cc (h.0)
  step d ds none s (some m) (some n, source) eq h = taken d ds none s m n source eq tt h
  step d ds (some k) s (some m) found eq h = elim (Bool-cases (leb m k)) [
    | inl tight ↦ tighter found (leb→le m k tight) (rw tight at h)
    | inr loose ↦ looser found loose (rw loose at h)
  ]
    where
      tighter :
          (o : Found) → m ≤ k → Tightest ds (some m, some d) o → Tightest (d ∷ ds) (some k, s) o
      tighter (none, source) le g = cc (g.0)
      tighter (some n, source) le g = taken d ds (some k) s m n source eq le g

      looser :
          (o : Found)
          → leb m k ≡ false
          → Tightest ds (some k, s) o
          → Tightest (d ∷ ds) (some k, s) o
      looser (none, source) lt g = cc (g.0)
      looser (some n, source) lt g =
          passed d ds (some k) s n source (λ p. rw eq (ground arith)) (rw eq (ground (arith, g.0)))
            g

  find_limit-Tightest :
      (ds : List FilePath) (found : Found) → Tightest ds found (find_limit files name ds found)
  unfolding find_limit
  find_limit-Tightest [] (none, s) = (refl, refl, tt)
  find_limit-Tightest [] (some n, s) = (omega arith, inl (refl, refl, tt))
  find_limit-Tightest (d ∷ ds) (e, s) =
      step d ds e s (limit_in d) _ refl (find_limit-Tightest ds (take_limit d (limit_in d) (e, s)))

-- The effective limit and its source: no host bound and no visible limit, then 0 and no source;
-- no limit as tight as the host, then the host and no source; else the tightest visible limit, at
-- the outermost directory that has it, and not above the host.
abbrev pub IsEffective : Files → String → List FilePath → ℕ → ℕ × Option FilePath → Type 0
IsEffective files name ds host (n, none) =
    (n ≡ host)
    × ((0 < host) × All (λ d. Below host (read_limit files (name ∷ d))) ds
        ⊎ All (λ d. read_limit files (name ∷ d) ≡ none) ds)
IsEffective files name ds host (n, some d) = ((0 < host → n ≤ host) × IsSource files name ds n d)

abbrev IsBound : ℕ → Option ℕ → Type 0
IsBound host b = ((b ≡ none) × (host ≡ 0)) ⊎ ((b ≡ some host) × (0 < host))

host_bound-IsBound : (host : ℕ) → IsBound host (host_bound host)
host_bound-IsBound host = elim (Bool-cases (ltb 0 host)) [
  | inl e ↦ inr (rw e refl, ground arith)
  | inr e ↦ inl (rw e refl, ground arith)
]

AtMost-host : (host n : ℕ) (b : Option ℕ) → IsBound host b → AtMost n b → 0 < host → n ≤ host
AtMost-host host n none h am pos = ground arith
AtMost-host host n (some k) h am pos = ground arith

module _ (files : Files) (name : String) (ds : List FilePath) (host : ℕ) where
  from_host :
      (b : Option ℕ) (n : ℕ)
      → IsBound host b
      → b ≡ some n
      → All (λ d. Below n (read_limit files (name ∷ d))) ds
      → IsEffective files name ds host (n, none)
  from_host b n (inl (p, z)) e all = cc (p, e)
  from_host b n (inr (p, pos)) e all =
      let q : n ≡ host = ground arith in
      (q, inl (pos, subst (λ (m : ℕ). All (λ d. Below m (read_limit files (name ∷ d))) ds) q all))

  from_Tightest :
      (b : Option ℕ) (found : Found)
      → IsBound host b
      → Tightest files name ds (b, none) found
      → IsEffective files name ds host (or_zero found)
  from_Tightest b (none, none) (inl (p, z)) (e, s, all) = (sym z, inr all)
  from_Tightest b (none, none) (inr (p, pos)) (e, s, all) = cc (p, e)
  from_Tightest b (none, some d) hb (e, s, all) = cc s
  from_Tightest b (some n, none) hb (am, inl (e, s, all)) = from_host b n hb e all
  from_Tightest b (some n, none) hb (am, inr (d, s, h)) = cc s
  from_Tightest b (some n, some d) hb (am, inl (e, s, all)) = cc s
  from_Tightest b (some n, some d) hb (am, inr (c, s, h)) =
      (AtMost-host host n b hb am, subst (IsSource files name ds n) (sym (some-injective d c s)) h)

-- `_find_effective_limit` finds the tightest of the limits that are visible from the membership's
-- own directory to the mount root: it is not above a known host limit, no directory has a tighter
-- one, and its source is the outermost directory that has it; there is no source exactly when no
-- limit is visible or all are above the host's, which is then the result.
pub find_effective_limit-IsEffective :
    (files : Files) (loc : CgroupLocation) (name : String) (host : ℕ)
    → IsEffective files name
        (walk_ancestors loc.current_dir loc.mount_dir)
        host
        (find_effective_limit files loc name host)
unfolding find_effective_limit
find_effective_limit-IsEffective files loc name host =
    let ds = walk_ancestors loc.current_dir loc.mount_dir in
    let found : Found = (host_bound host, none) in
    from_Tightest files name ds host (host_bound host) (find_limit files name ds found)
      (host_bound-IsBound host) (find_limit-Tightest files name ds found)
