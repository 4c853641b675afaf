-- ===== src/Wheels/Evidence/Snapshot/Bounds.antt =====
-- The bounds that an accepted resource snapshot keeps.
use mathlib.Core.Path.{subst}
use runpod_sageattention.Base.{
  ℕ, zero, suc, ◌≤◌, ◌<◌, ◌≡◌, refl, String, Bool, true, false, Option, none, some, leb, arith,
}
use runpod_sageattention.Base.Int.{pos, negsuc}
use runpod_sageattention.Json.{Json, null, bool, int, float, str, arr, obj, get}
use runpod_sageattention.Json.Equality.{is_number}
use runpod_sageattention.Job.Failure.{Result, Failure, ok, err, ◌>>=◌, ◌>>◌}
use runpod_sageattention.Wheels.Evidence.Snapshot.{
  need, require, positive_integer, dict, Limits, Snapshot, check_snapshot, check_capacity, text_in,
  is_bool, is_nonempty_text, check_mode, evidence_modes,
}

-- A result that is returned has the property.
pub data Ensures {A : Type 0} (P : A → Type 0) : Result A → Type 0 where
  returns : {a : A} → P a → Ensures P (ok a)
  raises : {e : Failure} → Ensures P (err e)

ok_inj : {A : Type 0} {x y : A} → ok x ≡ ok y → x ≡ y
ok_inj q = cc

pub ensured : {A : Type 0} (P : A → Type 0) (r : Result A) (a : A) → Ensures P r → r ≡ ok a → P a
ensured P _ a (Ensures.returns p) h = subst P (ok_inj h) p
ensured P _ a Ensures.raises h = cc

module _ {A B : Type 0} {P : B → Type 0} where
  pub Ensures-bind :
      {Q : A → Type 0} {f : A → Result B} (r : Result A)
      → Ensures Q r
      → ((a : A) → Q a → Ensures P (f a))
      → Ensures P (r >>= f)
  Ensures-bind _ (Ensures.returns {a = a} q) k = k a q
  Ensures-bind _ Ensures.raises k = Ensures.raises

  pub Ensures-any :
      {f : A → Result B} (r : Result A) → ((a : A) → Ensures P (f a)) → Ensures P (r >>= f)
  Ensures-any (ok a) k = k a
  Ensures-any (err e) k = Ensures.raises

pub positive_integer-ok :
    (v : Json) (n : ℕ) → positive_integer v ≡ some n → (v ≡ int (pos n)) × (0 < n)
unfolding positive_integer
positive_integer-ok (int (pos (suc m))) n h = (cc, ground arith)
positive_integer-ok (int (pos zero)) n h = cc
positive_integer-ok (int (negsuc m)) n h = cc
positive_integer-ok null n h = cc
positive_integer-ok (bool b) n h = cc
positive_integer-ok (float s) n h = cc
positive_integer-ok (str s) n h = cc
positive_integer-ok (arr vs) n h = cc
positive_integer-ok (obj fs) n h = cc

module _ {A : Type 0} {P : A → Type 0} where
  pub Ensures-require :
      (c : Bool) (t : String) (r : Result A)
      → (c ≡ true → Ensures P r)
      → Ensures P (require c t >> r)
  unfolding require
  Ensures-require true t r k = k refl
  Ensures-require false t r k = Ensures.raises

  pub Ensures-positive :
      (t : String) (v : Json) (f : ℕ → Result A)
      → ((n : ℕ) → v ≡ int (pos n) → Ensures P (f n))
      → Ensures P (need t (positive_integer v) >>= f)
  Ensures-positive t v f k = by_cases (positive_integer v) refl
    where
      by_cases : (o : Option ℕ) → positive_integer v ≡ o → Ensures P (need t o >>= f)
      by_cases none e = Ensures.raises
      by_cases (some n) e = k n (positive_integer-ok v n e).0

-- The snapshot's numbers are those of its document, and they keep the bounds.
pub record IsWithin (bounds : Limits) (s : Snapshot) : Type 0 where
  pub assigned : get "assigned_capacity_bytes" s.memory ≡ int (pos s.assigned)
  pub capacity : get "capacity_bytes" s.memory ≡ int (pos s.capacity)
  pub minimum : bounds.bytes ≤ s.capacity
  pub within : s.capacity ≤ s.assigned
  pub effective : get "effective_count" s.cpu ≡ int (pos s.effective)
  pub runpod : get "runpod_count" s.cpu ≡ int (pos s.runpod)
  pub minimum_cpus : bounds.cpus ≤ s.effective
  pub within_cpus : s.effective ≤ s.runpod

pub leb-le : (a b : ℕ) → leb a b ≡ true → a ≤ b
leb-le a b h = ground arith

pub check_snapshot-IsWithin :
    (bounds : Limits) (v : Json) → Ensures (IsWithin bounds) (check_snapshot bounds v)
unfolding check_snapshot
check_snapshot-IsWithin bounds v = Ensures-any (need _ (dict v)) λ snapshot.
    Ensures-require (is_number (get "schema_version" snapshot) (pos 2)) _ _ λ schema.
      Ensures-any (need _ (dict (get "memory" snapshot))) λ memory.
        Ensures-any (need _ (dict (get "cpu" snapshot))) λ cpu.
          Ensures-any (need _ (dict (get "build" snapshot))) λ build.
            Ensures-any (need _ (dict (get "cgroup" snapshot))) λ cgroup.
              Ensures-positive _ (get "assigned_capacity_bytes" memory) _ λ assigned ea.
                Ensures-positive _ (get "capacity_bytes" memory) _ λ capacity ec.
                  Ensures-require (leb bounds.bytes capacity) _ _ λ least.
                    Ensures-require (leb capacity assigned) _ _ λ most.
                      Ensures-require (is_nonempty_text (get "capacity_source" memory)) _ _
                        λ source.
                          Ensures-require (is_bool (get "capacity_is_hard_limit" memory)) _ _
                            λ hard.
                              Ensures-require (is_bool (get "usage_trustworthy" memory)) _ _
                                λ trust.
                                  Ensures-any
                                    (text_in evidence_modes (get "peak_evidence_mode" memory))
                                    λ known. Ensures-require known _ _ λ mode.
                                      Ensures-any (check_capacity memory cgroup capacity assigned)
                                        λ u.
                                          Ensures-positive _ (get "effective_count" cpu) _
                                            λ effective ee.
                                              Ensures-require (leb bounds.cpus effective) _ _
                                                λ cpus.
                                                  Ensures-positive _ (get "runpod_count" cpu) _
                                                    λ runpod er.
                                                      Ensures-require (leb bounds.cpus runpod) _ _
                                                        λ pod.
                                                          Ensures-require (leb effective runpod) _ _
                                                            λ fits.
                                                            Ensures-require
                                                            (is_bool
                                                            (get "forced_single_job" build))
                                                            _ _
                                                            λ forced.
                                                            Ensures-any
                                                            (check_mode bounds memory build cgroup
                                                            capacity assigned)
                                                            λ w. Ensures.returns record {
                                                            assigned = ea;
                                                            capacity = ec;
                                                            minimum = leb-le _ _ least;
                                                            within = leb-le _ _ most;
                                                            effective = ee;
                                                            runpod = er;
                                                            minimum_cpus = leb-le _ _ cpus;
                                                            within_cpus = leb-le _ _ fits;
                                                            }
