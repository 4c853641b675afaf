-- ===== src/Job/Deadline.antt =====
-- `Deadline` of tools/runpod_job.py: the hard budget that every operation but the cleanup shares.
-- Times are in milliseconds; the smallest timeout, 0.1 s, is 100.
pub mod Bounds
use runpod_sageattention.Base.{ℕ, ◌+◌, ◌-◌, ◌*◌, String, min, max, ◌==◌, if◌then◌else◌}
use runpod_sageattention.Base.Int.{ℤ, pos, pos_part, leb_ℤ}
use runpod_sageattention.Job.Failure.{job_timeout, Result, ok, refuse_if}
use runpod_sageattention.Job.Failure
use runpod_sageattention.Job.Effects.{Services, History, M, pure, raise, gets, ◌>>=◌}

-- `Deadline(timeout_seconds)`, as the moment at which it ends
unfoldable pub deadline : ℤ → ℕ → Result ℕ
deadline seconds now =
    Failure.◌>>◌ (refuse_if (leb_ℤ seconds (pos 0)) "timeout_seconds must be positive")
      (ok (now + pos_part seconds * 1000))

-- `Deadline.seconds_left`
unfoldable pub left : Services → ℕ → History → ℕ
left svc ends_at h = ends_at - svc.now h

pub expired : String
expired = "Runpod job exceeded its hard timeout"

-- `deadline.timeout()`
unfoldable pub timeout_all : Services → ℕ → M ℕ
unfolding left expired
timeout_all svc ends_at = do
  remaining ← gets (λ s. left svc ends_at s.history)
  if remaining == 0 then raise (job_timeout expired) else pure remaining

-- `deadline.timeout(cap)`
unfoldable pub timeout : Services → ℕ → ℕ → M ℕ
unfolding timeout_all
timeout svc ends_at cap = do remaining ← timeout_all svc ends_at; pure (max 100 (min remaining cap))
