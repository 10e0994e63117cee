-- ===== src/Schedule/Debt.antt =====
-- src/circuit.rs, `CircuitEvictionSchedule`: how the debt grows and is drained.
use oram.Base.{
  ℕ, zero, suc, ◌+◌, ◌-◌, ◌*◌, ◌^◌, ◌≤◌, ◌<◌, ◌≡◌, refl, ap, min, map, range_from, List, none, some,
  arith,
}
use native.Mathlib.Nat.{add-zero}
use native.Mathlib.Numerals.{add-one}
use oram.Outcome.{ok}
use oram.Schedule.{
  CircuitEvictionSchedule, pending_evictions, complete_one_eviction, drain_evictions, record_access,
  reverse_bits_mod, next_eviction_leaf,
}

-- The counters of a schedule that has not overflowed nor run ahead.
pub record IsConsistent (s : CircuitEvictionSchedule) : Type 0 where
  pub scheduled_fits : s.issued_accesses * s.evictions_per_access < 2 ^ 64
  pub not_ahead : s.completed_evictions ≤ s.issued_accesses * s.evictions_per_access
  pub issued_fits : s.issued_accesses < 2 ^ 64

-- Eviction paths that are due and not yet done.
abbrev pub owed : CircuitEvictionSchedule → ℕ
owed s = s.issued_accesses * s.evictions_per_access - s.completed_evictions

pub pending_evictions_lem :
    (s : CircuitEvictionSchedule) → IsConsistent s → pending_evictions s ≡ ok (owed s)
unfolding pending_evictions
pending_evictions_lem s v = ground arith

complete_idle :
    (s : CircuitEvictionSchedule)
    → IsConsistent s
    → owed s ≡ 0
    → complete_one_eviction s ≡ (ok none, s)
unfolding complete_one_eviction
complete_idle s v e = rw (pending_evictions_lem s v, complete_one_eviction) (ground arith)

complete_due :
    (s : CircuitEvictionSchedule)
    → IsConsistent s
    → 0 < owed s
    → complete_one_eviction s ≡ (
      ok (some (reverse_bits_mod s.completed_evictions s.leaf_bits)),
      record s { completed_evictions = s.completed_evictions + 1 },
    )
unfolding complete_one_eviction next_eviction_leaf
complete_due s v h = rw (pending_evictions_lem s v, complete_one_eviction) (ground arith)

-- The schedule after `n` more evictions.
abbrev pub advanced : ℕ → CircuitEvictionSchedule → CircuitEvictionSchedule
advanced n s = record s { completed_evictions = s.completed_evictions + n }

-- The leaves of the next `n` evictions.
abbrev pub next_leaves : ℕ → CircuitEvictionSchedule → List ℕ
next_leaves n s = map (λ i. reverse_bits_mod i s.leaf_bits) (range_from s.completed_evictions n)

advanced-IsConsistent :
    (n : ℕ) (s : CircuitEvictionSchedule)
    → n ≤ owed s
    → IsConsistent s
    → IsConsistent (advanced n s)
advanced-IsConsistent n s h v = ground arith

advanced-zero : (s : CircuitEvictionSchedule) → advanced 0 s ≡ s
advanced-zero s = ap (λ n. record s { completed_evictions = n }) (add-zero s.completed_evictions)

drain_count :
    (budget k : ℕ) (s : CircuitEvictionSchedule)
    → IsConsistent s
    → k ≡ min budget (owed s)
    → drain_evictions budget s ≡ (ok (next_leaves k s), advanced k s)
unfolding drain_evictions
drain_count zero zero s v e = rw (advanced-zero s)
drain_count zero (suc k) s v e = absurd (omega arith)
drain_count (suc budget) zero s v e =
    rw (complete_idle s v (omega arith), drain_evictions) (rw (advanced-zero s))
drain_count (suc budget) (suc k) s v e =
    let one : CircuitEvictionSchedule = advanced 1 s in
    rw (complete_due s v (omega arith), drain_evictions)
      (rw (drain_count budget k one (advanced-IsConsistent 1 s (omega arith) v) (omega arith)) (
        ground (
          arith,
          add-one s.completed_evictions,
          ap (λ n. range_from n k) (add-one s.completed_evictions),
        )))

pub drain_evictions_lem :
    (budget : ℕ) (s : CircuitEvictionSchedule)
    → IsConsistent s
    → drain_evictions budget s
      ≡ (ok (next_leaves (min budget (owed s)) s), advanced (min budget (owed s)) s)
drain_evictions_lem budget s v = drain_count budget (min budget (owed s)) s v refl

pub drain_evictions-IsConsistent :
    (budget : ℕ) (s : CircuitEvictionSchedule)
    → IsConsistent s
    → IsConsistent (drain_evictions budget s).1
drain_evictions-IsConsistent budget s v =
    rw (drain_evictions_lem budget s v)
      (advanced-IsConsistent (min budget (owed s)) s (omega arith) v)

-- On consistent counters with room for one more access, recording it succeeds, keeps them
-- consistent and adds `evictions_per_access` to the debt.
pub record_access_lem :
    (s : CircuitEvictionSchedule)
    → IsConsistent s
    → (s.issued_accesses + 1) * s.evictions_per_access < 2 ^ 64
    → s.issued_accesses + 1 < 2 ^ 64
    → let (r, t) = record_access s in
      (r ≡ ok tt) × IsConsistent t × (owed t ≡ owed s + s.evictions_per_access)
unfolding record_access
record_access_lem s v h h' = ground arith

-- Several accesses, recorded.
abbrev pub issued : ℕ → CircuitEvictionSchedule → CircuitEvictionSchedule
issued n s = record s { issued_accesses = s.issued_accesses + n }

pub record_access-issued :
    (s : CircuitEvictionSchedule)
    → s.issued_accesses + 1 < 2 ^ 64
    → record_access s ≡ (ok tt, issued 1 s)
unfolding record_access
record_access-issued s h = ground arith
