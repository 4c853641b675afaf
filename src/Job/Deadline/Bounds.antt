-- ===== src/Job/Deadline/Bounds.antt =====
-- The timeouts that the deadline hands out.
use runpod_sageattention.Base.{
  refl, min, ◌==◌, Bool, false, if◌then◌else◌, ℕ, ◌≤◌, ◌<◌, ◌≡◌, max, arith, String, true,
}
use runpod_sageattention.Job.Failure.{Result, ok, err, job_timeout}
use runpod_sageattention.Job.Effects.{Services, Frame, pure, raise, gets, ◌>>=◌}
use runpod_sageattention.Job.Deadline.{expired, left, timeout_all, timeout}

-- A timeout within the cap and within the time that is left, but at least 0.1 s; and none when no
-- time is left.
pub data IsGranted (left cap : ℕ) : Result ℕ → Type 0 where
  granted :
      (n : ℕ) → 0 < left → 100 ≤ n → n ≤ max 100 cap → n ≤ max 100 left → IsGranted left cap (ok n)
  refused : (text : String) → left ≡ 0 → IsGranted left cap (err (job_timeout text))

-- The rest of `timeout` once the test of the remaining time is made.
IsGranted-refused_or_not :
    (remaining cap : ℕ) (s : Frame) (b : Bool)
    → (remaining == 0) ≡ b
    → IsGranted remaining cap
        (((if b then raise (job_timeout expired) else pure remaining)
            >>= (λ n. pure (max 100 (min n cap))))
          s).0
      × ((((if b then raise (job_timeout expired) else pure remaining)
              >>= (λ n. pure (max 100 (min n cap))))
            s).1
          ≡ s)
unfolding pure raise ◌>>=◌
IsGranted-refused_or_not remaining cap s true e = (refused expired (ground arith), refl)
IsGranted-refused_or_not remaining cap s false e = (
  granted (max 100 (min remaining cap)) (ground arith) (omega arith) (omega arith) (omega arith),
  refl,
)

-- `Deadline.timeout` hands out a timeout exactly while time is left: at least 0.1 s, and otherwise
-- within the cap and the time that is left; it raises JobTimeout when the time is over. It calls
-- nothing and changes no variable.
pub timeout-IsGranted :
    (svc : Services) (ends_at cap : ℕ) (s : Frame)
    → IsGranted (left svc ends_at s.history) cap (timeout svc ends_at cap s).0
      × ((timeout svc ends_at cap s).1 ≡ s)
unfolding timeout timeout_all gets ◌>>=◌
timeout-IsGranted svc ends_at cap s =
    IsGranted-refused_or_not (left svc ends_at s.history) cap s (left svc ends_at s.history == 0)
      refl
