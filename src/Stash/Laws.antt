-- ===== src/Stash/Laws.antt =====
-- src/circuit.rs: the scans over the stash fill the first free slot, or none.
use oram.Base.{
  ℕ, ◌+◌, ◌≡◌, refl, ap, Bool, true, false, not, ◌&&◌, ◌||◌, List, [], ◌∷◌, length, All, bit,
  if◌then◌else◌, arith, Bool-cases, inl, inr,
}
use oram.Base.Count.{count, count-le}
use oram.Outcome.{ok, err, stash_overflow}
use oram.Ct.{Subtle, choice_from_bool, and, or}
use oram.Ct
use oram.Ct.Laws.{
  holds, holds-and, holds-or, holds-not, holds-choice_from_bool, unwrap_u8-holds, is_one_lem,
}
use oram.Params.{OramParams}
use oram.Block.{OramBlock}
use oram.Block.Laws.{holds_id, cmov_from_lem}
use oram.Meta.{CircuitMetaSlot}
use oram.Stash.{
  insert_candidate_into_stash, insert_loop, insert_into_stash, occupied_stash_len, check_stash,
}

-- The first free slot takes the block.
unfoldable pub place : OramBlock → List OramBlock → List OramBlock
place b [] = []
place b (s ∷ ss) = if s.occupied then s ∷ place b ss else b ∷ ss

unfoldable pub has_free : List OramBlock → Bool
has_free [] = false
has_free (s ∷ ss) = not s.occupied || has_free ss

-- Every payload has the length `n`.
abbrev pub IsSized : ℕ → List OramBlock → Type 0
IsSized n = All (λ b. length b.payload ≡ n)

place_full : (b : OramBlock) (ss : List OramBlock) → has_free ss ≡ false → place b ss ≡ ss
unfolding place has_free
place_full b [] h = refl
place_full b (s ∷ ss) h = ground (arith, place_full b ss)

pub length-place : (b : OramBlock) (ss : List OramBlock) → length (place b ss) ≡ length ss
unfolding place
length-place b [] = refl
length-place b (s ∷ ss) = ground (arith, length-place b ss)

pub All-place {ℓ} :
    (P : OramBlock → Type ℓ) (b : OramBlock) (ss : List OramBlock)
    → P b
    → All P ss
    → All P (place b ss)
unfolding place
All-place P b [] h hs = tt
All-place P b (s ∷ ss) h hs = elim (Bool-cases s.occupied) [
  | inl e ↦ simp e (hs.0, All-place P b ss h hs.1)
  | inr e ↦ simp e (h, hs.1)
]

-- A free slot counts for no id, so the placed block adds its own.
pub count-place :
    (b : OramBlock) (id : ℕ) (ss : List OramBlock)
    → has_free ss ≡ true
    → count (λ s. holds_id s id) (place b ss) ≡ count (λ s. holds_id s id) ss + bit (holds_id b id)
unfolding place has_free count
count-place b id [] h = cc
count-place b id (s ∷ ss) h = ground (arith, count-place b id ss)

-- The block of a path slot as the eviction hands it to the stash.
abbrev pub candidate_block : CircuitMetaSlot → List ℕ → OramBlock
candidate_block meta payload = record {
  occupied = true;
  logical_id = meta.logical_id;
  leaf = meta.leaf;
  payload = payload;
}

module _ (S : Subtle) where
  open S use {Choice}

  insert_loop_lem :
      (b : OramBlock) (c done : Choice) (slots : List OramBlock)
      → IsSized (length b.payload) slots
      → ((insert_loop S b c done slots).0
          ≡ (if holds S c && not (holds S done) then place b slots else slots))
        × (holds S (insert_loop S b c done slots).1
            ≡ (holds S done || (holds S c && has_free slots)))
  unfolding insert_loop place has_free
  insert_loop_lem b c done [] v = ground arith
  insert_loop_lem b c done (s ∷ ss) v =
      let occupied : Choice = choice_from_bool S s.occupied in
      let wanted : Choice = and S c (Ct.not S done) in
      let can : Choice = and S wanted (Ct.not S occupied) in
      ground (
        arith,
        holds-choice_from_bool S s.occupied,
        holds-not S done,
        holds-not S occupied,
        holds-and S c (Ct.not S done),
        holds-and S wanted (Ct.not S occupied),
        holds-or S done can,
        cmov_from_lem S s b can v.0,
        insert_loop_lem b c (or S done can) ss v.1,
      )

  -- When every stash payload has the length of the block's, a real block goes to the first free
  -- slot, and without one the stash is unchanged and the error is a stash overflow; a dummy block
  -- changes nothing and succeeds.
  pub insert_into_stash_lem :
      (p : OramParams) (b : OramBlock) (stash : List OramBlock)
      → IsSized (length b.payload) stash
      → insert_into_stash S p b stash ≡ (
          if b.occupied
          then (if has_free stash
              then (ok tt, place b stash)
              else (err (stash_overflow (p.stash_capacity + 1) p.stash_capacity), stash))
          else (ok tt, stash))
  unfolding insert_into_stash
  insert_into_stash_lem p b stash v =
      let c : Choice = choice_from_bool S b.occupied in
      ground (
        arith,
        insert_loop_lem b c (Ct.not S c) stash v,
        is_one_lem S (Ct.not S (insert_loop S b c (Ct.not S c) stash).1),
        holds-not S (insert_loop S b c (Ct.not S c) stash).1,
        holds-not S c,
        holds-choice_from_bool S b.occupied,
        place_full b stash,
      )

  -- When the payload and every stash payload have the block size, a chosen candidate goes to the
  -- first free slot as a real block, and without one the stash is unchanged and the error is a
  -- stash overflow; a candidate that is not chosen changes nothing and succeeds.
  pub insert_candidate_into_stash_lem :
      (p : OramParams) (meta : CircuitMetaSlot) (payload : List ℕ) (c : Choice)
      (stash : List OramBlock)
      → length payload ≡ p.block_size
      → IsSized p.block_size stash
      → insert_candidate_into_stash S p meta payload c stash ≡ (
          if holds S c
          then (if has_free stash
              then (ok tt, place (candidate_block meta payload) stash)
              else (err (stash_overflow (p.stash_capacity + 1) p.stash_capacity), stash))
          else (ok tt, stash))
  unfolding insert_candidate_into_stash
  insert_candidate_into_stash_lem p meta payload c stash e v =
      let b : OramBlock = candidate_block meta payload in
      ground (
        arith,
        insert_loop_lem b c (Ct.not S c) stash (rw e v),
        is_one_lem S (Ct.not S (insert_loop S b c (Ct.not S c) stash).1),
        holds-not S (insert_loop S b c (Ct.not S c) stash).1,
        holds-not S c,
        place_full b stash,
      )

  pub occupied_stash_len_lem :
      (stash : List OramBlock) → occupied_stash_len S stash ≡ count (λ b. b.occupied) stash
  unfolding occupied_stash_len count
  occupied_stash_len_lem [] = refl
  occupied_stash_len_lem (b ∷ stash) = omega (
    arith,
    unwrap_u8-holds S (choice_from_bool S b.occupied),
    ap bit (holds-choice_from_bool S b.occupied),
    occupied_stash_len_lem stash,
  )

  -- The check of the stash passes on every stash of `stash_capacity` slots.
  pub check_stash_lem :
      (p : OramParams) (stash : List OramBlock)
      → length stash ≡ p.stash_capacity
      → check_stash S p stash ≡ ok tt
  unfolding check_stash
  check_stash_lem p stash e =
      ground (arith, occupied_stash_len_lem stash, count-le (λ b. b.occupied) stash)
