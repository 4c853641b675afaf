-- ===== src/Resources/Collect/Budget.antt =====
-- The build that `collect_resources` suggests stays within the machine's CPUs and, with its
-- reserve, within the Pod's verified memory.
use mathlib.Core.Path.{subst}
use mathlib.Core.Option.{some-ne-none}
use runpod_sageattention.Base.{
  ap, sym, ◌∙◌, ◌++◌, ℕ, ◌+◌, ◌*◌, ◌≤◌, ◌<◌, ◌≡◌, String, Option, none, some, arith,
}
use runpod_sageattention.Job.Failure.{ok, map_result-ok}
use runpod_sageattention.Resources.Snapshot.{MemorySnapshot}
use runpod_sageattention.Resources.Memory.{Warnings, collect_memory}
use runpod_sageattention.Resources.Memory.Coherent.{collect_memory-IsCoherent}
use runpod_sageattention.Resources.Receipt.{ReceiptFile}
use runpod_sageattention.Resources.Assigned.{apply_assigned_memory_capacity}
use runpod_sageattention.Resources.Assigned.Bound.{
  Outcome, unassigned, bounded, apply_assigned_memory_capacity-Outcome,
}
use runpod_sageattention.Resources.Cpu.{collect_cpu}
use runpod_sageattention.Resources.Cpu.Effective.{IsEffective, collect_cpu-IsEffective}
use runpod_sageattention.Resources.Recommend.Fits.{Fits, recommend_build_jobs-Fits}
use runpod_sageattention.Resources.Collect.{
  missing, Machine, ResourceSnapshot, collect_resources, with_memory,
}

-- The memory that a build with several jobs may use.
pub record Budget (m : Machine) (s : ResourceSnapshot) : Type 0 where
  pub jobs : 1 ≤ s.build.suggested_jobs
  pub cpus : s.build.suggested_jobs ≤ s.cpu.effective_count
  pub effective : IsEffective s.cpu
  pub fits : Fits s.memory s.cpu.effective_count s.build
  pub memory :
      Outcome m.receipt m.assigned_bytes
        (collect_memory m.files m.meminfo_text (m.locate "memory")).0
        s.memory

with_memory-Budget :
    (m : Machine) (per_job_given reserve_given : Option ℕ) (before : Warnings)
    (memory : MemorySnapshot) (notes : Warnings)
    → Outcome m.receipt m.assigned_bytes
        (collect_memory m.files m.meminfo_text (m.locate "memory")).0
        memory
    → Budget m (with_memory m per_job_given reserve_given before (memory, notes))
unfolding with_memory
with_memory-Budget m per_job_given reserve_given before memory notes h =
    let c =
      collect_cpu-IsEffective m.files (m.locate "cpuset") (m.locate "cpu") m.host_cpu_count
        m.affinity_count m.cpu_count in
    let f =
      recommend_build_jobs-Fits memory
        (collect_cpu m.files (m.locate "cpuset") (m.locate "cpu") m.host_cpu_count m.affinity_count
          m.cpu_count).effective_count
        m.build per_job_given reserve_given in
    record {
      jobs = f.positive;
      cpus = omega (arith, f.cpu, c.positive);
      effective = c;
      fits = f;
      memory = h;
    }

-- A snapshot that `collect_resources` returns suggests at least one job and no more than the
-- effective CPUs, the recommendation fits the snapshot's memory, and that memory is the collected
-- one where no assignment is given, or one that respects an assignment which the receipt confirms.
pub collect_resources-Budget :
    (m : Machine) (per_job_given reserve_given : Option ℕ) (s : ResourceSnapshot)
    → collect_resources m per_job_given reserve_given ≡ ok s
    → Budget m s
unfolding collect_resources
collect_resources-Budget m per_job_given reserve_given s e =
    let found = collect_memory m.files m.meminfo_text (m.locate "memory") in
    let before =
      missing m.mountinfo_text "cannot read /proc/self/mountinfo"
      ++ missing m.cgroup_text "cannot read /proc/self/cgroup"
      ++ found.1 in
    let ((memory, notes), r, p) =
      map_result-ok (with_memory m per_job_given reserve_given before)
        (apply_assigned_memory_capacity m.files m.receipt m.assigned_bytes found.0
          (m.locate "memory"))
        s e in
    subst (λ t. Budget m t) p
      (with_memory-Budget m per_job_given reserve_given before memory notes (
        apply_assigned_memory_capacity-Outcome m.files m.receipt m.assigned_bytes found.0
          (m.locate "memory") memory notes
          (collect_memory-IsCoherent m.files m.meminfo_text (m.locate "memory")) r))

-- A snapshot that records an assignment respects it.
Outcome-available :
    (file : ReceiptFile) (raw : Option String) (before memory : MemorySnapshot) (assigned : ℕ)
    → before.assigned_capacity_bytes ≡ none
    → Outcome file raw before memory
    → memory.assigned_capacity_bytes ≡ some assigned
    → memory.available_bytes ≤ assigned
Outcome-available file raw before memory assigned h (unassigned o e) given =
    absurd (some-ne-none assigned (sym given ∙ ap (λ x. x.assigned_capacity_bytes) e ∙ h))
Outcome-available file raw before memory assigned h (bounded n o b r) given =
    let e : n ≡ assigned = cc (r.recorded, given) in omega (arith, e, r.capacity, r.available)

-- If `collect_resources` returns a snapshot that records an assignment and suggests more than one
-- job, the memory of all these jobs and the reserve are together within the assignment.
pub assigned-Budget :
    (m : Machine) (per_job_given reserve_given : Option ℕ) (s : ResourceSnapshot) (assigned : ℕ)
    → collect_resources m per_job_given reserve_given ≡ ok s
    → s.memory.assigned_capacity_bytes ≡ some assigned
    → 1 < s.build.suggested_jobs
    → s.build.suggested_jobs * s.build.memory_per_job_bytes + s.build.reserve_bytes ≤ assigned
assigned-Budget m per_job_given reserve_given s assigned e given more =
    let b = collect_resources-Budget m per_job_given reserve_given s e in
    let h = collect_memory-IsCoherent m.files m.meminfo_text (m.locate "memory") in
    omega (
      arith,
      b.fits.fit more,
      Outcome-available m.receipt m.assigned_bytes
          (collect_memory m.files m.meminfo_text (m.locate "memory")).0 s.memory assigned
          h.unassigned b.memory given,
    )
