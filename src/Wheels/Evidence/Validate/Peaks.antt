-- ===== src/Wheels/Evidence/Validate/Peaks.antt =====
-- What the accepted peaks of a build guarantee.
use runpod_sageattention.Base.{
  ℕ, ◌+◌, max, ◌≤◌, ◌≡◌, refl, String, Bool, true, false, ◌&&◌, leb, arith,
}
use runpod_sageattention.Base.Int.{pos}
use runpod_sageattention.Json.{Fields, int, obj, get}
use runpod_sageattention.Json.Equality.{eq_json}
use runpod_sageattention.Job.Failure.{Result, ok, err}
use runpod_sageattention.Wheels.Evidence.Snapshot.{require, is_true}
use runpod_sageattention.Wheels.Evidence.Snapshot.Bounds.{
  Ensures, Ensures-bind, Ensures-any, Ensures-require, Ensures-positive, leb-le,
}
use runpod_sageattention.Wheels.Evidence.Peak.{
  check_cgroup_peak, unavailable_cgroup_peak, has_rss_fields, rss_policy, check_expected,
}
use runpod_sageattention.Wheels.Evidence.Sample.{
  Sample, check_sizes, check_counts, check_compilers, check_times, check_constants, check_rss_peak,
}

-- The peak of a cgroup does not decrease and stays within the capacity.
pub record IsCgroupPeak (peak : Fields) (capacity : ℕ) : Type 0 where
  pub start_bytes : ℕ
  pub end_bytes : ℕ
  pub start_value : get "start_bytes" peak ≡ int (pos start_bytes)
  pub end_value : get "end_bytes" peak ≡ int (pos end_bytes)
  pub grows : start_bytes ≤ end_bytes
  pub within : end_bytes ≤ capacity

-- The sampled peak is at least its endpoints, and with the reserve it stays within the capacity.
pub record IsSampledPeak (peak : Fields) (reserve capacity : ℕ) : Type 0 where
  pub sample : Sample
  pub start_value : get "start_bytes" peak ≡ int (pos sample.start_bytes)
  pub end_value : get "end_bytes" peak ≡ int (pos sample.end_bytes)
  pub peak_value : get "peak_bytes" peak ≡ int (pos sample.peak_bytes)
  pub covers_start : sample.start_bytes ≤ sample.peak_bytes
  pub covers_end : sample.end_bytes ≤ sample.peak_bytes
  pub within : sample.peak_bytes + reserve ≤ capacity

and-both : (a b : Bool) → (a && b) ≡ true → (a ≡ true) × (b ≡ true)
and-both true b h = (refl, h)
and-both false b h = cc

Ensures-last :
    {P : Type 0} (c : Bool) (t : String)
    → (c ≡ true → P)
    → Ensures (λ (u : Unit {0}). P) (require c t)
unfolding require
Ensures-last true t k = Ensures.returns (k refl)
Ensures-last false t k = Ensures.raises

-- A property that holds of whatever is returned.
pub all_units : {P : Type 0} → P → (r : Result (Unit {0})) → Ensures (λ u. P) r
all_units p (ok u) = Ensures.returns p
all_units p (err e) = Ensures.raises

pub check_cgroup_peak-IsCgroupPeak :
    (policy peak memory_peak : Fields) (capacity : ℕ)
    → Ensures (λ u. IsCgroupPeak peak capacity) (check_cgroup_peak policy peak memory_peak capacity)
unfolding check_cgroup_peak
check_cgroup_peak-IsCgroupPeak policy peak memory_peak capacity =
    Ensures-require (is_true (get "available" peak)) _ _ λ available.
      Ensures-require (eq_json (get "source" peak) (get "usage_source" policy)) _ _ λ source.
        Ensures-require (eq_json (get "scope" peak) (get "usage_scope" policy)) _ _ λ scope.
          Ensures-require (eq_json (get "usage_trustworthy" peak) (get "usage_trustworthy" policy))
            _ _
            λ trust. Ensures-positive _ (get "start_bytes" peak) _ λ peak_start es.
              Ensures-positive _ (get "end_bytes" peak) _ λ peak_end ee.
                Ensures-require (leb peak_start peak_end) _ _ λ grows.
                  Ensures-require (is_true (get "monotonic" peak)) _ _ λ monotonic.
                    Ensures-require (leb peak_start capacity && leb peak_end capacity) _ _ λ within.
                      all_units
                        (record {
                          start_bytes = peak_start;
                          end_bytes = peak_end;
                          start_value = es;
                          end_value = ee;
                          grows = leb-le _ _ grows;
                          within = leb-le _ _ (and-both _ _ within).1;
                        })
                        _

check_sizes-lem :
    (peak : Fields)
    → Ensures
        (λ s.
          (get "start_bytes" peak ≡ int (pos s.start_bytes))
          × (get "end_bytes" peak ≡ int (pos s.end_bytes))
          × (get "peak_bytes" peak ≡ int (pos s.peak_bytes))
          × (max s.start_bytes s.end_bytes ≤ s.peak_bytes))
        (check_sizes peak)
unfolding check_sizes
check_sizes-lem peak = Ensures-positive _ (get "start_bytes" peak) _ λ a ea.
    Ensures-positive _ (get "end_bytes" peak) _ λ b eb.
      Ensures-positive _ (get "peak_bytes" peak) _ λ c ec.
        Ensures-require (leb (max a b) c) _ _ λ h. Ensures.returns (ea, eb, ec, leb-le _ _ h)

pub check_rss_peak-IsSampledPeak :
    (cgroup_peak peak : Fields) (reserve capacity : ℕ)
    → Ensures
        (λ u. IsSampledPeak peak reserve capacity)
        (check_rss_peak cgroup_peak peak reserve capacity)
unfolding check_rss_peak
check_rss_peak-IsSampledPeak cgroup_peak peak reserve capacity =
    Ensures-require (eq_json (obj cgroup_peak) (obj unavailable_cgroup_peak)) _ _ λ absent.
      Ensures-require (has_rss_fields peak) _ _ λ fields.
        Ensures-any (check_expected peak rss_policy) λ expected.
          Ensures-any (check_constants peak) λ constants.
            Ensures-bind (check_sizes peak) (check_sizes-lem peak) λ sample sizes.
              Ensures-any (check_counts peak) λ counts.
                Ensures-any (check_compilers (get "observed_compiler_executables" peak))
                  λ compilers. Ensures-any (check_times peak) λ times. last sample sizes
  where
    last :
        (s : Sample)
        → (get "start_bytes" peak ≡ int (pos s.start_bytes))
          × (get "end_bytes" peak ≡ int (pos s.end_bytes))
          × (get "peak_bytes" peak ≡ int (pos s.peak_bytes))
          × (max s.start_bytes s.end_bytes ≤ s.peak_bytes)
        → Ensures
            (λ u. IsSampledPeak peak reserve capacity)
            (require
              (leb (s.peak_bytes + reserve) capacity)
              "RSS peak plus reserve exceeds the verified assignment capacity")
    last s (ea, eb, ec, m) = Ensures-last _ _ λ h. record {
      sample = s;
      start_value = ea;
      end_value = eb;
      peak_value = ec;
      covers_start = omega (arith, m);
      covers_end = omega (arith, m);
      within = leb-le _ _ h;
    }
