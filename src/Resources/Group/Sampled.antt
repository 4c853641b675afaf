-- ===== src/Resources/Group/Sampled.antt =====
-- The samples of the supervisor summarise the snapshots that show the group, and its exit status.
use runpod_sageattention.Base.{
  ℕ, zero, suc, ◌+◌, max, ◌≤◌, ◌≡◌, refl, ◌∙◌, ◌↔◌, String, Bool, true, false, Option, none, some,
  List, [], ◌∷◌, length, filter_map, push, is_nil, arith,
}
use runpod_sageattention.Base.Int.{ℤ, pos, negsuc}
use runpod_sageattention.Resources.Group.{Details}
use runpod_sageattention.Resources.Group.Samples.{
  Samples, no_samples, add_sample, first, rss, is_empty, sample, sample_all, finish,
}

abbrev pub shown_if : Bool → ℕ → Option ℕ
shown_if true n = none
shown_if false n = some n

-- The resident bytes of a snapshot that shows the group.
abbrev pub shown : ℕ → Details → Option ℕ
shown page_size d = shown_if (is_empty page_size d) (rss page_size d)

-- the greatest of a list
unfoldable pub maximum : List ℕ → ℕ
maximum [] = 0
maximum (n ∷ ns) = max n (maximum ns)

abbrev pub last : Option ℕ → List ℕ → Option ℕ
last o [] = o
last o (n ∷ ns) = last (some n) ns

abbrev pub head : List ℕ → Option ℕ
head [] = none
head (n ∷ ns) = some n

abbrev or_head : Option ℕ → List ℕ → Option ℕ
or_head none ns = head ns
or_head (some n) ns = some n

-- The samples `t` add the values `kept` to the samples `s`.
record Adds (s t : Samples) (kept : List ℕ) : Type 0 where
  count : t.sample_count ≡ s.sample_count + length kept
  peak : t.peak_bytes ≡ max s.peak_bytes (maximum kept)
  start : t.start_bytes ≡ or_head s.start_bytes kept
  end : t.end_bytes ≡ last s.end_bytes kept

last_append :
    (s : Samples) (n : ℕ) (kept : List ℕ) → last (some n) kept ≡ last s.end_bytes (n ∷ kept)
last_append s n kept = refl

start_append :
    (o : Option ℕ) (n : ℕ) (kept : List ℕ) → or_head (first o n) kept ≡ or_head o (n ∷ kept)
start_append none n kept = refl
start_append (some m) n kept = refl

max_assoc : (a b c : ℕ) → max (max a b) c ≡ max a (max b c)
max_assoc a b c = ground arith

max_zero : (n : ℕ) → max 0 n ≡ n
max_zero n = ground arith

add_zero : (n : ℕ) → 0 + n ≡ n
add_zero n = omega arith

or_none : (o : Option ℕ) → o ≡ or_head o []
or_none none = refl
or_none (some n) = refl

Adds-if :
    (b : Bool) (page_size : ℕ) (d : Details) (s t : Samples) (kept : List ℕ)
    → Adds (add_sample b page_size d s).1 t kept
    → Adds s t (push (shown_if b (rss page_size d)) kept)
unfolding add_sample maximum
Adds-if true page_size d s t kept a = a
Adds-if false page_size d s t kept a = record {
  count = omega (arith, a.count);
  peak = a.peak ∙ max_assoc s.peak_bytes (rss page_size d) (maximum kept);
  start = a.start ∙ start_append s.start_bytes (rss page_size d) kept;
  end = a.end;
}

sample_all-Adds :
    (page_size : ℕ) (ds : List Details) (s : Samples)
    → Adds s (sample_all page_size ds s) (filter_map (shown page_size) ds)
unfolding sample_all sample maximum
sample_all-Adds page_size [] s = record {
  count = omega arith;
  peak = omega arith;
  start = or_none s.start_bytes;
  end = refl;
}
sample_all-Adds page_size (d ∷ ds) s =
    Adds-if (is_empty page_size d) page_size d s _ (filter_map (shown page_size) ds)
      (sample_all-Adds page_size ds (sample page_size d s).1)

-- After any snapshots: the count of those that show the group, their greatest, first and last
-- resident bytes.
pub sample_all-summary :
    (page_size : ℕ) (ds : List Details)
    → let kept = filter_map (shown page_size) ds in
      let s = sample_all page_size ds no_samples in
      (s.sample_count ≡ length kept)
      × (s.peak_bytes ≡ maximum kept)
      × (s.start_bytes ≡ head kept)
      × (s.end_bytes ≡ last none kept)
sample_all-summary page_size ds =
    let a = sample_all-Adds page_size ds no_samples in
    (a.count ∙ add_zero _, a.peak ∙ max_zero _, a.start, a.end)

-- What a supervised build that counts as a success has shown.
pub record IsSuccess (returncode : ℤ) (s : Samples) (error : Option String) : Type 0 where
  pub returned : returncode ≡ pos 0
  pub no_error : error ≡ none
  pub sampled : 2 ≤ s.sample_count
  pub leader : s.leader_observed ≡ true
  pub compilers : is_nil s.observed_compiler_executables ≡ false

-- The exit status is 0 exactly for a returned leader with code 0 and no monitor error, whose samples
-- are at least two and show the leader and a compiler.
pub finish_iff :
    (returncode : ℤ) (s : Samples) (error : Option String)
    → (finish returncode s error ≡ 0) ↔ IsSuccess returncode s error
unfolding finish
finish_iff (negsuc n) s none = (λ h. ground arith, λ h. ground (arith, h.returned))
finish_iff (negsuc n) s (some e) = (λ h. ground arith, λ h. ground (arith, h.returned))
finish_iff (pos (suc n)) s none = (λ h. ground arith, λ h. ground (arith, h.returned))
finish_iff (pos (suc n)) s (some e) = (λ h. ground arith, λ h. ground (arith, h.returned))
finish_iff (pos zero) s none = (
  λ h. record {
    returned = refl;
    no_error = refl;
    sampled = ground arith;
    leader = ground arith;
    compilers = ground arith;
  },
  λ h. ground (arith, h.sampled, h.leader, h.compilers),
)
finish_iff (pos zero) s (some e) = (λ h. ground arith, λ h. ground (arith, h.no_error))
