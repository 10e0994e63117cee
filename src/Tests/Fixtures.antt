-- ===== src/Tests/Fixtures.antt =====
-- Parameters for the tests: choices as Booleans, a counting generator, a small tree.
use oram.Base.{
  ℕ, ◌+◌, ◌-◌, ◌%◌, ◌^◌, ◌≤◌, ◌≡◌, refl, min, max, Bool, true, not, ◌&&◌, ◌||◌, bit, ◌==◌,
  if◌then◌else◌, [], ◌∷◌, arith,
}
use native.Mathlib.Nat.{mod-lt}
use oram.Ct.{Subtle}
use oram.Controller.{Rng}
use oram.Params.{OramParams}
use oram.Block.{OramBlock}

pub bit-le : (b : Bool) → bit b ≤ 1
bit-le b = ground arith

pub is_one-bit : (b : Bool) → bit (bit b == 1) ≡ bit b
is_one-bit b = ground arith

pub bit-not : (b : Bool) → bit (not b) ≡ 1 - bit b
bit-not b = ground arith

pub bit-and : (b c : Bool) → bit (b && c) ≡ min (bit b) (bit c)
bit-and b c = ground arith

pub bit-or : (b c : Bool) → bit (b || c) ≡ max (bit b) (bit c)
bit-or b c = ground arith

pub select-bit : (a b : ℕ) (c : Bool) → (if c then b else a) ≡ (if bit c == 1 then b else a)
select-bit a b c = ground arith

abbrev pub bool_subtle : Subtle
bool_subtle = record {
  Choice = Bool;
  from = λ n. n == 1;
  unwrap_u8 = bit;
  not = not;
  and = ◌&&◌;
  or = ◌||◌;
  ct_eq = λ a b. a == b;
  conditional_select = λ a b c. if c then b else a;
  unwrap_u8-le = bit-le;
  unwrap_u8-from = is_one-bit;
  unwrap_u8-not = bit-not;
  unwrap_u8-and = bit-and;
  unwrap_u8-or = bit-or;
  unwrap_u8-ct_eq = λ a b. refl;
  conditional_select_lem = select-bit;
}

abbrev pub counter : Rng
counter = record {
  State = ℕ;
  next_u64 = λ s. (s % 2 ^ 64, s + 1);
  next_u64-lt = λ s. mod-lt s (omega arith);
}

-- Two leaves, and blocks of one byte.
abbrev pub small : OramParams
small = record {
  logical_blocks = 1;
  block_size = 1;
  bucket_size = 1;
  leaves = 2;
  stash_capacity = 1;
}

abbrev pub block_of : ℕ → ℕ → OramBlock
block_of id byte = record { occupied = true; logical_id = id; leaf = 1; payload = byte ∷ [] }
