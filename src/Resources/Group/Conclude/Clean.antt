-- ===== src/Resources/Group/Conclude/Clean.antt =====
-- A supervised build that exits with 0 has returned 0 and left nothing of its group.
use mathlib.Core.Path.{subst}
use runpod_sageattention.Base.{
  ◌≡◌, refl, sym, ap, ◌∙◌, String, Bool, true, false, ◌&&◌, ◌||◌, Option, none, some, is_none,
  is_some, if◌then◌else◌,
}
use runpod_sageattention.Base.Int.{ℤ, pos}
use runpod_sageattention.Job.Failure.{Result, ok, err, bind-ok}
use runpod_sageattention.Resources.Group.Samples.{Samples}
use runpod_sageattention.Resources.Group.Watch.{Monitor, with_error}
use runpod_sageattention.Resources.Group.Sampled.{IsSuccess, finish_iff}
use runpod_sageattention.Resources.Group.Conclude.{
  Ending, terminate_group, ended_by, wait_if_running, settle, remove_rest, exit_status, conclude,
}

ok_inj : {A : Type 0} {x y : A} → ok x ≡ ok y → x ≡ y
ok_inj h = cc

-- The samples and the monitor error are those of before.
record Keeps (m n : Monitor) : Type 0 where
  samples : n.samples ≡ m.samples
  error : n.monitor_error ≡ m.monitor_error

Keeps-of : (m n l : Monitor) → Keeps m l → ok l ≡ ok n → Keeps m n
Keeps-of m n l k h = record {
  samples = ap (λ (x : Monitor). x.samples) (sym (ok_inj h)) ∙ k.samples;
  error = ap (λ (x : Monitor). x.monitor_error) (sym (ok_inj h)) ∙ k.error;
}

ended_by-Keeps : (m n : Monitor) (r : Result (ℤ × Bool)) → ended_by m r ≡ ok n → Keeps m n
ended_by-Keeps m n (ok (c, k)) h = Keeps-of m n _ (record { samples = refl; error = refl }) h
ended_by-Keeps m n (err e) h = cc

-- the code of a leader that is waited for if need be
abbrev pub HasReturned : Option ℤ → Option ℤ → ℤ → Type 0
HasReturned none waited code = waited ≡ some code
HasReturned (some c) waited code = c ≡ code

wait-Keeps : (m n : Monitor) (o waited : Option ℤ) → wait_if_running m o waited ≡ ok n → Keeps m n
wait-Keeps m n (some c) waited h = Keeps-of m n m (record { samples = refl; error = refl }) h
wait-Keeps m n none (some c) h = Keeps-of m n _ (record { samples = refl; error = refl }) h
wait-Keeps m n none none h = cc

settle-Keeps : (e : Ending) (m n : Monitor) → settle e m ≡ ok n → Keeps m n
unfolding settle
settle-Keeps e m n h = by_test (is_some m.monitor_error && (is_none e.polled || e.group_exists)) h
  where
    by_test :
        (b : Bool)
        → (if b
            then ended_by m (terminate_group e.termination.waiting e.termination.killing)
            else wait_if_running m m.child_returncode e.waited)
          ≡ ok n
        → Keeps m n
    by_test true g =
        ended_by-Keeps m n (terminate_group e.termination.waiting e.termination.killing) g
    by_test false g = wait-Keeps m n m.child_returncode e.waited g

exit_status-zero :
    (o : Option ℤ) (m : Monitor)
    → exit_status o m ≡ ok 0
    → (code : ℤ) × (o ≡ some code) × IsSuccess code m.samples m.monitor_error
unfolding exit_status
exit_status-zero none m h = cc
exit_status-zero (some code) m h =
    (code, refl, (finish_iff code m.samples m.monitor_error).0 (ok_inj h))

ended_by-error :
    (m n : Monitor) (text : String) (r : Result (ℤ × Bool))
    → ended_by (with_error text m) r ≡ ok n
    → n.monitor_error ≡ some text
ended_by-error m n text r h = (ended_by-Keeps (with_error text m) n r h).error

-- What an exit status of 0 shows: no rest of the group, no monitor error, a leader that returned 0,
-- and the samples of a success.
pub record IsClean (e : Ending) (m : Monitor) : Type 0 where
  pub no_rest : e.remains ≡ false
  pub success : IsSuccess (pos 0) m.samples m.monitor_error
  pub returned : HasReturned m.child_returncode e.waited (pos 0)

settle-quiet :
    (e : Ending) (m : Monitor)
    → m.monitor_error ≡ none
    → settle e m ≡ wait_if_running m m.child_returncode e.waited
unfolding settle
settle-quiet e m h = rw h refl

some_inj : {x y : ℤ} → some x ≡ some y → x ≡ y
some_inj h = cc

wait-returned :
    (m n : Monitor) (o waited : Option ℤ) (code : ℤ)
    → m.child_returncode ≡ o
    → wait_if_running m o waited ≡ ok n
    → n.child_returncode ≡ some code
    → HasReturned o waited code
wait-returned m n (some c) waited code e h p =
    some_inj (sym e ∙ (ap (λ (x : Monitor). x.child_returncode) (ok_inj h) ∙ p))
wait-returned m n none (some c) code e h p = ap (λ (x : Monitor). x.child_returncode) (ok_inj h) ∙ p
wait-returned m n none none code e h p = cc

some-none : {x : String} → some x ≡ none → ⊥
some-none h = cc

remove_rest-clean :
    (e : Ending) (n l : Monitor)
    → remove_rest e n ≡ ok l
    → l.monitor_error ≡ none
    → (e.remains ≡ false) × (n ≡ l)
unfolding remove_rest
remove_rest-clean e n l h q = by_test e.remains h
  where
    by_test :
        (b : Bool)
        → (if b
            then ended_by
                (with_error "isolated build process group remained after leader exit" n)
                (terminate_group e.last_termination.waiting e.last_termination.killing)
            else ok n)
          ≡ ok l
        → (b ≡ false) × (n ≡ l)
    by_test true g = absurd (some-none (sym (ended_by-error n l _ _ g) ∙ q))
    by_test false g = (refl, ok_inj g)

-- The supervisor returns 0 only for a build whose leader returned 0, whose group is gone without a
-- second termination, and whose samples make a success.
pub conclude-IsClean : (e : Ending) (m : Monitor) → conclude e m ≡ ok 0 → IsClean e m
unfolding conclude
conclude-IsClean e m h =
    let (n, hn, h₁) = bind-ok (settle e m) _ 0 h in
    let (l, hl, h₂) = bind-ok (remove_rest e n) _ 0 h₁ in
    let (code, known, success) = exit_status-zero l.child_returncode l h₂ in
    let (rest, same) = remove_rest-clean e n l hl success.no_error in
    let kept = settle-Keeps e m n hn in
    let quiet : m.monitor_error ≡ none =
      sym kept.error ∙ (ap (λ (x : Monitor). x.monitor_error) same ∙ success.no_error) in
    let back =
      success_at code (ap (λ (x : Monitor). x.samples) (sym same) ∙ kept.samples)
        (ap (λ (x : Monitor). x.monitor_error) (sym same) ∙ kept.error) success in
    record {
      no_rest = rest;
      success = subst (λ c. IsSuccess c m.samples m.monitor_error) success.returned back;
      returned = subst (HasReturned m.child_returncode e.waited) success.returned (
          wait-returned m n m.child_returncode e.waited code refl
            (sym (settle-quiet e m quiet) ∙ hn)
            (ap (λ (x : Monitor). x.child_returncode) same ∙ known));
    }
  where
    success_at :
        {s t : Samples} {a b : Option String} (code : ℤ)
        → s ≡ t
        → a ≡ b
        → IsSuccess code s a
        → IsSuccess code t b
    success_at {s} {t} {a} {b} code p q x =
        subst (λ y. IsSuccess code t y) q (subst (λ y. IsSuccess code y a) p x)
