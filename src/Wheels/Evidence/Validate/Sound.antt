-- ===== src/Wheels/Evidence/Validate/Sound.antt =====
-- What accepted build evidence guarantees.
use mathlib.Core.Path.{subst}
use runpod_sageattention.Base.{
  ℕ, ◌≡◌, refl, sym, ◌∙◌, ◌⊎◌, inl, inr, String, Bool, true, false, List, [], ◌∷◌, arith, All,
  Bool-cases, if◌then◌else◌,
}
use runpod_sageattention.Base.Int.{pos}
use runpod_sageattention.Json.{Json, Fields, int, obj, get, is_str}
use runpod_sageattention.Json.Equality.{eq_json}
use runpod_sageattention.Job.Failure.{Result, ok, err, ◌>>=◌, bind-ok}
use runpod_sageattention.Wheels.Evidence.Snapshot.{
  need, dict, is_false, is_given, Limits, limits, Snapshot, check_snapshot, positive_integer,
}
use runpod_sageattention.Wheels.Evidence.Snapshot.Bounds.{
  Ensures, ensured, Ensures-bind, Ensures-any, Ensures-require, Ensures-positive, IsWithin,
  check_snapshot-IsWithin,
}
use runpod_sageattention.Wheels.Evidence.Policy.{
  check_unchanged, check_policies, check_bound, bound_memory_fields, check_rss_policy,
  rss_build_fields,
}
use runpod_sageattention.Wheels.Evidence.Peak.{check_cgroup_peak}
use runpod_sageattention.Wheels.Evidence.Sample.{check_rss_peak}
use runpod_sageattention.Wheels.Evidence.Validate.{
  Bound, reserve_of, bind_evidence, check_peaks, validate_resource_evidence,
}
use runpod_sageattention.Wheels.Evidence.Validate.Peaks.{
  IsCgroupPeak, IsSampledPeak, check_cgroup_peak-IsCgroupPeak, check_rss_peak-IsSampledPeak,
}

true-false : true ≡ false → ⊥
true-false e = cc

Ensures-map :
    {A : Type 0} {P Q : A → Type 0} {r : Result A}
    → Ensures Q r
    → ((a : A) → Q a → P a)
    → Ensures P r
Ensures-map (Ensures.returns {a = a} q) k = Ensures.returns (k a q)
Ensures-map Ensures.raises k = Ensures.raises

Ensures-known :
    {A B : Type 0} {P : B → Type 0} {f : A → Result B} (r : Result A)
    → ((a : A) → r ≡ ok a → Ensures P (f a))
    → Ensures P (r >>= f)
Ensures-known (ok a) k = k a refl
Ensures-known (err e) k = Ensures.raises

check_bound-All :
    (text : String) (ks : List String) (start later : Fields)
    → Ensures
        (λ u. All (λ k. eq_json (get k later) (get k start) ≡ true) ks)
        (check_bound text ks start later)
unfolding check_bound
check_bound-All text [] start later = Ensures.returns tt
check_bound-All text (k ∷ ks) start later =
    Ensures-require (eq_json (get k later) (get k start)) _ _
      λ same. Ensures-map (check_bound-All text ks start later) λ u rest. (same, rest)

-- The fields have the same values in both dictionaries.
abbrev IsEqualIn : List String → Fields → Fields → Type 0
IsEqualIn ks start later = All (λ k. eq_json (get k later) (get k start) ≡ true) ks

-- The two snapshots have one memory assignment, capacity, job policy and vCPU assignment.
abbrev IsSame : Snapshot → Snapshot → Type 0
IsSame start later =
    IsEqualIn bound_memory_fields start.memory later.memory
    × IsEqualIn ("forced_single_job" ∷ []) start.build later.build
    × IsEqualIn ("runpod_count" ∷ []) start.cpu later.cpu

check_unchanged-IsSame :
    (start later : Snapshot) → Ensures (λ u. IsSame start later) (check_unchanged start later)
unfolding check_unchanged
check_unchanged-IsSame start later =
    Ensures-bind (check_bound _ bound_memory_fields start.memory later.memory)
      (check_bound-All _ bound_memory_fields start.memory later.memory)
      λ u memory.
        Ensures-bind (check_bound _ ("forced_single_job" ∷ []) start.build later.build)
          (check_bound-All _ ("forced_single_job" ∷ []) start.build later.build)
          λ v build.
            Ensures-map (check_bound-All _ ("runpod_count" ∷ []) start.cpu later.cpu)
              λ w cpu. (memory, build, cpu)

eq_json-int :
    (v w : Json) (a b : ℕ) → eq_json v w ≡ true → v ≡ int (pos a) → w ≡ int (pos b) → a ≡ b
unfolding eq_json
eq_json-int v w a b h p q =
    ints (subst (λ x. eq_json x (int (pos b)) ≡ true) p (subst (λ x. eq_json v x ≡ true) q h))
  where
    ints : eq_json (int (pos a)) (int (pos b)) ≡ true → a ≡ b
    ints e = ground arith

check_rss_policy-lem :
    (start later : Snapshot) (parallelism : Fields)
    → Ensures
        (λ n. get "reserve_bytes" start.build ≡ int (pos n))
        (check_rss_policy start later parallelism)
unfolding check_rss_policy
check_rss_policy-lem start later parallelism =
    Ensures-any (check_bound _ rss_build_fields start.build later.build) λ u.
      Ensures-positive _ (get "reserve_bytes" start.build) _ λ reserve er.
        Ensures-require (is_given (positive_integer (get "memory_per_job_bytes" start.build))) _ _
          λ per_job. Ensures-require (is_false (get "low_resource_override" parallelism)) _ _ λ low.
            Ensures-require (is_false (get "unsafe_override" parallelism)) _ _
              λ safe. Ensures.returns er

reserve_of-lem :
    (is_rss : Bool) (start later : Snapshot) (parallelism : Fields)
    → Ensures
        (λ n. is_rss ≡ true → get "reserve_bytes" start.build ≡ int (pos n))
        (reserve_of is_rss start later parallelism)
unfolding reserve_of
reserve_of-lem true start later parallelism =
    Ensures-map (check_rss_policy-lem start later parallelism) λ n e t. e
reserve_of-lem false start later parallelism = Ensures.returns (λ t. cc)

-- Both snapshots keep the bounds of the matrix and have one memory assignment, one capacity, one
-- vCPU assignment and one forced single job; the reserve is the one that the build's recommendation states.
pub record IsBound (resources : Fields) (b : Bound) : Type 0 where
  pub bounds : Limits
  pub matrix : limits resources ≡ ok bounds
  pub start : IsWithin bounds b.start
  pub later : IsWithin bounds b.later
  pub same_assigned : b.later.assigned ≡ b.start.assigned
  pub same_capacity : b.later.capacity ≡ b.start.capacity
  pub same_runpod : b.later.runpod ≡ b.start.runpod
  pub same_policy :
      eq_json (get "forced_single_job" b.later.build) (get "forced_single_job" b.start.build) ≡ true
  pub mode : b.is_rss ≡ is_str (get "peak_evidence_mode" b.policy) "process-group-rss"
  pub reserve : b.is_rss ≡ true → get "reserve_bytes" b.start.build ≡ int (pos b.reserve)

bind_evidence-IsBound :
    (evidence resources : Fields) → Ensures (IsBound resources) (bind_evidence evidence resources)
unfolding bind_evidence
bind_evidence-IsBound evidence resources = Ensures-known (limits resources) λ bounds e.
    Ensures-any (need _ (dict (get "memory_policy" evidence))) λ policy.
      Ensures-bind (check_snapshot bounds (get "resource_start" evidence))
        (check_snapshot-IsWithin bounds (get "resource_start" evidence))
        λ start s.
          Ensures-bind (check_snapshot bounds (get "resource_end" evidence))
            (check_snapshot-IsWithin bounds (get "resource_end" evidence))
            λ later l.
              Ensures-bind (check_unchanged start later) (check_unchanged-IsSame start later)
                λ u same. Ensures-any (check_policies evidence policy start) λ parallelism.
                  Ensures-bind
                    (reserve_of (is_str (get "peak_evidence_mode" policy) "process-group-rss") start
                      later parallelism)
                    (reserve_of-lem (is_str (get "peak_evidence_mode" policy) "process-group-rss")
                      start later parallelism)
                    λ reserve r. Ensures.returns record {
                      bounds = bounds;
                      matrix = e;
                      start = s;
                      later = l;
                      same_assigned = eq_json-int _ _ _ _ same.0.0 l.assigned s.assigned;
                      same_capacity = eq_json-int _ _ _ _ same.0.1.0 l.capacity s.capacity;
                      same_runpod = eq_json-int _ _ _ _ same.2.0 l.runpod s.runpod;
                      same_policy = same.1.0;
                      mode = refl;
                      reserve = r;
                    }

-- The peak that the mode of the policy reads.
pub record HasPeak (evidence : Fields) (b : Bound) : Type 0 where
  pub cgroup_peak : Fields
  pub memory_peak : Fields
  pub cgroup_value : get "cgroup_peak" evidence ≡ obj cgroup_peak
  pub memory_value : get "memory_peak" evidence ≡ obj memory_peak
  pub cgroup :
      is_str (get "peak_evidence_mode" b.policy) "cgroup" ≡ true
      → IsCgroupPeak cgroup_peak b.start.capacity
  pub sampled :
      is_str (get "peak_evidence_mode" b.policy) "cgroup" ≡ false
      → IsSampledPeak memory_peak b.reserve b.start.capacity

dict-obj : (t : String) (v : Json) (fs : Fields) → need t (dict v) ≡ ok fs → v ≡ obj fs
dict-obj t v fs h = ground arith

check_peaks-HasPeak :
    (evidence : Fields) (b : Bound) → Ensures (λ u. HasPeak evidence b) (check_peaks evidence b)
unfolding check_peaks
check_peaks-HasPeak evidence b =
    Ensures-known (need _ (dict (get "cgroup_peak" evidence))) λ cgroup_peak ec.
      Ensures-known (need _ (dict (get "memory_peak" evidence))) λ memory_peak em.
        by_mode cgroup_peak memory_peak (dict-obj _ _ cgroup_peak ec) (dict-obj _ _ memory_peak em)
          (Bool-cases (is_str (get "peak_evidence_mode" b.policy) "cgroup"))
  where
    by_mode :
        (cgroup_peak memory_peak : Fields)
        → get "cgroup_peak" evidence ≡ obj cgroup_peak
        → get "memory_peak" evidence ≡ obj memory_peak
        → (is_str (get "peak_evidence_mode" b.policy) "cgroup" ≡ true)
          ⊎ (is_str (get "peak_evidence_mode" b.policy) "cgroup" ≡ false)
        → Ensures
            (λ u. HasPeak evidence b)
            (if is_str (get "peak_evidence_mode" b.policy) "cgroup"
              then check_cgroup_peak b.policy cgroup_peak memory_peak b.start.capacity
              else check_rss_peak cgroup_peak memory_peak b.reserve b.start.capacity)
    by_mode c m ec em (inl t) = rw t (
        Ensures-map (check_cgroup_peak-IsCgroupPeak b.policy c m b.start.capacity) λ u p. record {
          cgroup_peak = c;
          memory_peak = m;
          cgroup_value = ec;
          memory_value = em;
          cgroup = λ h. p;
          sampled = λ h. absurd (true-false (sym t ∙ h));
        })
    by_mode c m ec em (inr t) = rw t (
        Ensures-map (check_rss_peak-IsSampledPeak c m b.reserve b.start.capacity) λ u p. record {
          cgroup_peak = c;
          memory_peak = m;
          cgroup_value = ec;
          memory_value = em;
          cgroup = λ h. absurd (true-false (sym h ∙ t));
          sampled = λ h. p;
        })

-- Evidence that `validate_resource_evidence` accepts: both snapshots keep the matrix's minimum of
-- memory and CPUs and stay within the Pod's assignment; its memory and its vCPUs are the same in
-- both, as are the capacity and whether a single job is forced. Where the memory policy reads a cgroup, its peak does not decrease and is within the
-- capacity; else the sampled peak is at least its endpoints, and with the reserve, which is the one
-- of the build recommendation where the mode is process-group-rss, it is within the capacity.
pub validate_resource_evidence-IsBound :
    (evidence resources : Fields)
    → validate_resource_evidence evidence resources ≡ ok tt
    → (b : Bound) × (bind_evidence evidence resources ≡ ok b)
      × IsBound resources b
      × HasPeak evidence b
unfolding validate_resource_evidence
validate_resource_evidence-IsBound evidence resources h =
    let (b, e, h₁) = bind-ok (bind_evidence evidence resources) _ tt h in
    (
      b,
      e,
      ensured (IsBound resources) _ b (bind_evidence-IsBound evidence resources) e,
      ensured (λ (u : Unit {0}). HasPeak evidence b) _ tt (check_peaks-HasPeak evidence b) h₁,
    )
