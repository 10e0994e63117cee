-- ===== src/Schedule.antt =====
-- src/circuit.rs, `CircuitEvictionSchedule`: the public debt of eviction paths. The counters are
-- `u64`, and their checked arithmetic is written out.
pub mod Debt
pub mod Rotation
use oram.Base.{
  ℕ, zero, suc, ◌+◌, ◌-◌, ◌*◌, ◌/◌, ◌%◌, ◌^◌, bit_and, List, [], ◌∷◌, Option, none, some, Bool, ltb,
  leb, ◌==◌, not, if◌then◌else◌,
}
use oram.Base.Words.{reverse_bits}
use oram.Outcome.{Result, ok, err, invalid_input, ◌>>=◌, ◌>>◌, reject_if}
use oram.Outcome.Stateful.{M, continue, pure, lift, get, put}
use oram.Outcome.Stateful
use oram.Params.{OramParams, leaf_bits}

pub record CircuitEvictionSchedule : Type 0 where
  pub leaf_bits : ℕ
  pub evictions_per_access : ℕ
  pub issued_accesses : ℕ
  pub completed_evictions : ℕ

abbrev pub default_evictions_per_access : ℕ
default_evictions_per_access = 2

-- `checked_add`, `checked_mul` and `checked_sub` of a `u64`, with the error of the `None` case.
abbrev pub checked : ℕ → Result ℕ
checked x = if ltb x (2 ^ 64) then ok x else err invalid_input

abbrev pub checked_sub : ℕ → ℕ → Result ℕ
checked_sub a b = if leb b a then ok (a - b) else err invalid_input

pub with_rate : OramParams → ℕ → CircuitEvictionSchedule
with_rate p rate = record {
  leaf_bits = leaf_bits p;
  evictions_per_access = rate;
  issued_accesses = 0;
  completed_evictions = 0;
}

pub new : OramParams → CircuitEvictionSchedule
new p = with_rate p default_evictions_per_access

unfoldable pub pending_evictions : CircuitEvictionSchedule → Result ℕ
pending_evictions s = do
  scheduled ← checked (s.issued_accesses * s.evictions_per_access)
  checked_sub scheduled s.completed_evictions

pub from_counters : OramParams → ℕ → ℕ → ℕ → Result CircuitEvictionSchedule
from_counters p rate issued completed =
    let schedule : CircuitEvictionSchedule = record {
      leaf_bits = leaf_bits p;
      evictions_per_access = rate;
      issued_accesses = issued;
      completed_evictions = completed;
    } in
    do _ ← pending_evictions schedule; ok schedule

pub record_access : M CircuitEvictionSchedule (Unit {0})
record_access s =
    continue (λ n s'. (ok tt, record s' { issued_accesses = n }))
      (checked (s.issued_accesses + 1), s)

unfoldable pub validate_for_params : CircuitEvictionSchedule → OramParams → Result (Unit {0})
validate_for_params s p = do
  reject_if (not (s.leaf_bits == leaf_bits p)) invalid_input
  _ ← pending_evictions s
  ok tt

-- A shift of a word of 32 bits is by its low 5 bits. The source asserts, in a debug build, that
-- `leaf_bits` is from 1 to 32.
pub reverse_bits_mod : ℕ → ℕ → ℕ
reverse_bits_mod index leaf_bits =
    let mask = if leaf_bits == 32 then 2 ^ 32 - 1 else 2 ^ (leaf_bits % 32) - 1 in
    let shift = (2 ^ 32 + 32 - leaf_bits) % 32 in
    let low = bit_and (index % 2 ^ 32) mask in reverse_bits 32 low / 2 ^ shift

pub next_eviction_leaf : CircuitEvictionSchedule → ℕ
next_eviction_leaf s = reverse_bits_mod s.completed_evictions s.leaf_bits

advance : ℕ → M CircuitEvictionSchedule (Option ℕ)
advance pending s =
    if pending == 0
    then (ok none, s)
    else let leaf = next_eviction_leaf s in
      continue (λ n s'. (ok (some leaf), record s' { completed_evictions = n }))
        (checked (s.completed_evictions + 1), s)

pub complete_one_eviction : M CircuitEvictionSchedule (Option ℕ)
unfolding advance
complete_one_eviction s = continue advance (pending_evictions s, s)

-- One round of the loop of `drain_evictions`: `break` on `None`, else the later rounds.
drain_round : M CircuitEvictionSchedule (List ℕ) → Option ℕ → M CircuitEvictionSchedule (List ℕ)
drain_round later none s = (ok [], s)
drain_round later (some leaf) s = continue (λ leaves. pure (leaf ∷ leaves)) (later s)

pub drain_evictions : ℕ → M CircuitEvictionSchedule (List ℕ)
unfolding drain_round
drain_evictions zero s = (ok [], s)
drain_evictions (suc budget) s =
    continue (drain_round (drain_evictions budget)) (complete_one_eviction s)

pub eviction_leaf_at : OramParams → ℕ → ℕ
eviction_leaf_at p eviction_index = reverse_bits_mod eviction_index (leaf_bits p)
