-- ===== src/Resources/Assigned/Bound.antt =====
-- A confirmed assignment bounds the capacity and the headroom. Where it replaces the capacity,
-- usage that is unknown or above it leaves no headroom.
use mathlib.Core.Path.{subst}
use runpod_sageattention.Base.{
  sym, ◌∙◌, ap, ◌&&◌, ◌∷◌, inl, inr, Bool-cases, leb, ℕ, ◌≤◌, ◌<◌, ◌≡◌, refl, String, Bool, true,
  false, Option, none, some, arith, is_some,
}
use runpod_sageattention.Job.Failure.{ok, map_result-ok}
use runpod_sageattention.Resources.Files.{Files}
use runpod_sageattention.Resources.Limit.{CgroupLocation}
use runpod_sageattention.Resources.Snapshot.{MemorySnapshot, LeafUsage, usage_name, read_leaf_usage}
use runpod_sageattention.Resources.Memory.{Warnings}
use runpod_sageattention.Resources.Memory.Coherent.{IsCoherent}
use runpod_sageattention.Resources.Receipt.{
  ReceiptFile, IsBelieved, assigned_memory_capacity, assigned_memory_capacity-IsBelieved,
}
use runpod_sageattention.Resources.Assigned.{
  Evidence, judge, evidence, amounts, assigned_snapshot, keep_limit, apply,
  apply_assigned_memory_capacity,
}

-- A finite limit that is not above the assignment.
abbrev pub is_kept : MemorySnapshot → ℕ → Bool
is_kept before assigned = before.limited && leb before.limit_bytes assigned

-- A snapshot that respects an assignment: the capacity and the available memory are within it,
-- memory is available only if the usage is evidence, and the raw limit is the one that was read. A
-- finite limit within the assignment keeps the capacity and what is available; else the capacity is
-- the assignment, and nothing is available where the usage is unknown or above it.
pub record Respects (before m : MemorySnapshot) (assigned : ℕ) : Type 0 where
  pub recorded : m.assigned_capacity_bytes ≡ some assigned
  pub capacity : m.capacity_bytes ≤ assigned
  pub available : m.available_bytes ≤ m.capacity_bytes
  pub free : m.free_bytes ≤ m.available_bytes
  pub unknown : m.usage_peak_eligible ≡ false → m.available_bytes ≡ 0
  pub trusted : m.usage_trustworthy ≡ true → m.usage_peak_eligible ≡ true
  pub hard : m.capacity_is_hard_limit ≡ true → before.limited ≡ true
  pub limit : m.limit_bytes ≡ before.limit_bytes
  pub kept_capacity : is_kept before assigned ≡ true → m.capacity_bytes ≡ before.capacity_bytes
  pub kept_available : is_kept before assigned ≡ true → m.available_bytes ≡ before.available_bytes
  pub replaced : is_kept before assigned ≡ false → m.capacity_bytes ≡ assigned
  pub unread :
      is_kept before assigned ≡ false → m.usage_current_bytes ≡ none → m.available_bytes ≡ 0
  pub excessive :
      (u : ℕ)
      → is_kept before assigned ≡ false
      → m.usage_current_bytes ≡ some u
      → assigned < u
      → m.available_bytes ≡ 0

keep_limit-Respects :
    (memory : MemorySnapshot) (assigned : ℕ)
    → IsCoherent memory
    → memory.limited ≡ true
    → memory.limit_bytes ≤ assigned
    → Respects memory (keep_limit memory assigned) assigned
unfolding keep_limit
keep_limit-Respects memory assigned h l le =
    ground (arith, h.working, h.capacity l, h.available l, h.free l, h.trusted, h.unknown l)

true-false : true ≡ false → ⊥
true-false e = cc

amounts-unread :
    (eligible : Bool) (usage : Option ℕ) (inactive assigned : ℕ)
    → usage ≡ none
    → (amounts eligible usage inactive assigned).available ≡ 0
unfolding amounts
amounts-unread eligible usage inactive assigned e = ground arith

amounts-ineligible :
    (eligible : Bool) (usage : Option ℕ) (inactive assigned : ℕ)
    → (eligible ≡ true → ⊥)
    → (amounts eligible usage inactive assigned).available ≡ 0
unfolding amounts
amounts-ineligible true usage inactive assigned h = absurd (h refl)
amounts-ineligible false usage inactive assigned h = refl

assigned_snapshot-Respects :
    (memory : MemorySnapshot) (e : Evidence) (assigned : ℕ)
    → IsCoherent memory
    → is_kept memory assigned ≡ false
    → (e.trusted ≡ true → e.eligible ≡ true)
    → ((u : ℕ) → e.eligible ≡ true → e.leaf.current ≡ some u → u ≤ assigned)
    → Respects memory (assigned_snapshot memory e assigned) assigned
unfolding assigned_snapshot amounts
assigned_snapshot-Respects memory e assigned h o t w = record {
  recorded = refl;
  capacity = omega arith;
  available = ground arith;
  free = ground arith;
  unknown = λ q. rw q refl;
  trusted = t;
  hard = λ q. cc;
  limit = refl;
  kept_capacity = λ k. absurd (true-false (sym k ∙ o));
  kept_available = λ k. absurd (true-false (sym k ∙ o));
  replaced = λ k. refl;
  unread = λ k q. amounts-unread e.eligible e.leaf.current e.inactive assigned q;
  excessive = λ u k q lt.
      amounts-ineligible e.eligible e.leaf.current e.inactive assigned
        λ t. absurd (omega (arith, lt, w u t q));
}

judge-trusted :
    (leaf : LeafUsage) (raw : Bool) (assigned : ℕ)
    → (judge leaf raw assigned).trusted ≡ true
    → (judge leaf raw assigned).eligible ≡ true
unfolding judge
judge-trusted leaf raw assigned h = ground arith

evidence-trusted :
    (files : Files) (loc : Option CgroupLocation) (assigned : ℕ)
    → (evidence files loc assigned).trusted ≡ true
    → (evidence files loc assigned).eligible ≡ true
unfolding evidence
evidence-trusted files none assigned h = h
evidence-trusted files (some loc) assigned h =
    judge-trusted (read_leaf_usage files loc)
      (is_some (files (usage_name loc.version ∷ loc.current_dir))) assigned h

judge-within :
    (leaf : LeafUsage) (raw : Bool) (assigned u : ℕ)
    → (judge leaf raw assigned).eligible ≡ true
    → (judge leaf raw assigned).leaf.current ≡ some u
    → u ≤ assigned
unfolding judge
judge-within leaf raw assigned u h e = ground arith

evidence-within :
    (files : Files) (loc : Option CgroupLocation) (assigned u : ℕ)
    → (evidence files loc assigned).eligible ≡ true
    → (evidence files loc assigned).leaf.current ≡ some u
    → u ≤ assigned
unfolding evidence
evidence-within files none assigned u h e = cc
evidence-within files (some loc) assigned u h e =
    judge-within (read_leaf_usage files loc)
      (is_some (files (usage_name loc.version ∷ loc.current_dir))) assigned u h e

apply-Respects :
    (files : Files) (memory : MemorySnapshot) (loc : Option CgroupLocation) (assigned : ℕ)
    → IsCoherent memory
    → Respects memory (apply files memory loc (some assigned)).0 assigned
unfolding apply
apply-Respects files memory loc assigned h =
    elim (Bool-cases (memory.limited && leb memory.limit_bytes assigned)) [
      | inl e ↦
          rw (e, apply)
            (keep_limit-Respects memory assigned h (ground (arith, e)) (ground (arith, e)))
      | inr e ↦
          rw (e, apply)
            (assigned_snapshot-Respects memory (evidence files loc assigned) assigned h e
              (evidence-trusted files loc assigned) (evidence-within files loc assigned))
    ]

-- What `apply_assigned_memory_capacity` may return for a snapshot: without an assignment in the
-- environment and in a receipt, the snapshot itself; with one, a snapshot that respects it.
pub data Outcome (file : ReceiptFile) (raw : Option String) (before m : MemorySnapshot)
    : Type 0 where
  unassigned :
      assigned_memory_capacity file raw before.host_total_bytes ≡ ok none
      → m ≡ before
      → Outcome file raw before m
  bounded :
      (assigned : ℕ)
      → assigned_memory_capacity file raw before.host_total_bytes ≡ ok (some assigned)
      → IsBelieved file before.host_total_bytes assigned
      → Respects before m assigned
      → Outcome file raw before m

apply-Outcome :
    (files : Files) (file : ReceiptFile) (raw : Option String) (memory : MemorySnapshot)
    (loc : Option CgroupLocation) (assigned : Option ℕ)
    → IsCoherent memory
    → assigned_memory_capacity file raw memory.host_total_bytes ≡ ok assigned
    → Outcome file raw memory (apply files memory loc assigned).0
unfolding apply
apply-Outcome files file raw memory loc none h e = unassigned e refl
apply-Outcome files file raw memory loc (some assigned) h e =
    bounded assigned e
      (assigned_memory_capacity-IsBelieved file raw memory.host_total_bytes assigned e)
      (apply-Respects files memory loc assigned h)

-- Applied to a coherent snapshot, `apply_assigned_memory_capacity` returns it unchanged if
-- `_assigned_memory_capacity` finds no assignment; if it finds one, the receipt confirms it and the
-- result respects it: capacity and available memory are within it, and the raw limit is kept. A
-- finite limit within the assignment keeps the capacity and what is available; else the capacity is
-- the assignment, and unknown or excessive usage leaves nothing available.
pub apply_assigned_memory_capacity-Outcome :
    (files : Files) (file : ReceiptFile) (raw : Option String) (memory : MemorySnapshot)
    (loc : Option CgroupLocation) (m : MemorySnapshot) (notes : Warnings)
    → IsCoherent memory
    → apply_assigned_memory_capacity files file raw memory loc ≡ ok (m, notes)
    → Outcome file raw memory m
unfolding apply_assigned_memory_capacity
apply_assigned_memory_capacity-Outcome files file raw memory loc m notes h e =
    let (assigned, r, p) =
      map_result-ok (apply files memory loc)
        (assigned_memory_capacity file raw memory.host_total_bytes) (m, notes) e in
    subst (λ x. Outcome file raw memory x) (ap (λ q. q.0) p)
      (apply-Outcome files file raw memory loc assigned h r)
