-- ===== src/Select/Laws.antt =====
-- src/circuit.rs: the scan of a bucket, against a removal of the first match.
use oram.Base.{
  ℕ, ◌+◌, ◌≡◌, refl, ap, ◌∙◌, Bool, true, false, ◌||◌, List, [], ◌∷◌, map, length, replicate, All,
  bit, ◌==◌, if◌then◌else◌, arith, Bool-cases, inl, inr,
}
use oram.Base.Bytes.{IsBytes}
use oram.Base.Count.{count}
use oram.Ct.{Subtle, and, or}
use oram.Ct
use oram.Ct.Laws.{
  holds, holds-and, holds-or, holds-not, cmov_u8_lem, cmov_u32_lem, cmov_u64_lem, cmov_bytes_lem,
  keep_mask_lem,
}
use oram.Block.{OramBlock}
use oram.Block
use oram.Block.Laws.{holds_id}
use oram.Block.Shape.{IsBlock}
use oram.Meta.{CircuitMetaSlot, logical_id_choice}
use oram.Meta
use oram.Meta.Laws
use oram.Select.{
  cmov_block_from_meta_payload, clear_payload_if, Scan, select_and_remove_target_slots,
}

-- A bucket is seen as a list of blocks; its two halves are stored apart.
abbrev pub meta_of : OramBlock → CircuitMetaSlot
meta_of b = record { occupied = b.occupied; logical_id = b.logical_id; leaf = b.leaf }

abbrev pub payload_of : OramBlock → List ℕ
payload_of b = b.payload

unfoldable pub has_id : ℕ → List OramBlock → Bool
has_id id [] = false
has_id id (b ∷ bs) = holds_id b id || has_id id bs

-- The first block with the id makes room for a dummy.
unfoldable pub remove_first : ℕ → ℕ → List OramBlock → List OramBlock
remove_first n id [] = []
remove_first n id (b ∷ bs) = if holds_id b id then Block.dummy n ∷ bs else b ∷ remove_first n id bs

unfoldable pub find_first : ℕ → OramBlock → List OramBlock → OramBlock
find_first id d [] = d
find_first id d (b ∷ bs) = if holds_id b id then b else find_first id d bs

module _ (S : Subtle) where
  open S use {Choice}

  cmov_block_lem :
      (block b : OramBlock) (c : Choice)
      → length block.payload ≡ length b.payload
      → cmov_block_from_meta_payload S block (meta_of b) (payload_of b) c
        ≡ (if holds S c then b else block)
  unfolding cmov_block_from_meta_payload
  cmov_block_lem block b c e = ground (
    arith,
    cmov_u8_lem S (bit block.occupied) (bit b.occupied) c,
    cmov_u64_lem S block.logical_id b.logical_id c,
    cmov_u32_lem S block.leaf b.leaf c,
    cmov_bytes_lem S block.payload b.payload c e,
  )

  clear_payload_if_lem :
      (payload : List ℕ) (c : Choice)
      → IsBytes payload
      → clear_payload_if S payload c ≡ (if holds S c then replicate (length payload) 0 else payload)
  unfolding clear_payload_if
  clear_payload_if_lem [] c h = ground arith
  clear_payload_if_lem (x ∷ xs) c h =
      ground (arith, keep_mask_lem S x c h.0, clear_payload_if_lem xs c h.1)

  -- What the scan leaves, as a fact about the blocks of the bucket.
  pub record Scanned (n id : ℕ) (bl : List OramBlock) (sel : OramBlock) (before : Bool) (r : Scan S)
      : Type 0 where
    pub metas_are : r.metas ≡ map meta_of (if before then bl else remove_first n id bl)
    pub payloads_are : r.payloads ≡ map payload_of (if before then bl else remove_first n id bl)
    pub selected_is : r.selected ≡ (if before then sel else find_first id sel bl)
    pub removed_is : holds S r.removed ≡ (before || has_id id bl)

  -- Over well-formed blocks, with a payload of the block size in `selected`, the branchless scan
  -- of a bucket leaves the metadata and payloads of the removal of the first block with the id,
  -- unless one was removed before, selects that block, and updates the flag.
  pub select_and_remove_lem :
      (n id : ℕ) (bl : List OramBlock) (sel : OramBlock) (c : Choice)
      → All (IsBlock n) bl
      → length sel.payload ≡ n
      → Scanned n id bl sel
          (holds S c)
          (select_and_remove_target_slots S (map meta_of bl) (map payload_of bl) id sel c)
  unfolding select_and_remove_target_slots remove_first find_first has_id Meta.dummy Block.dummy
  select_and_remove_lem n id [] sel c v e = ground arith
  select_and_remove_lem n id (b ∷ bl) sel c v e =
      let matched : Choice = and S (logical_id_choice S (meta_of b) id) (Ct.not S c) in
      let h : IsBlock n b = v.0 in
      let same : length sel.payload ≡ length b.payload = omega (arith, h.sized) in
      let sel' : OramBlock =
        cmov_block_from_meta_payload S sel (meta_of b) (payload_of b) matched in
      let sel'_is : sel' ≡ (if holds S matched then b else sel) =
        cmov_block_lem sel b matched same in
      let e' : length sel'.payload ≡ n =
        ap (λ x. length (payload_of x)) sel'_is ∙ ground (arith, h.sized) in
      ground (
        arith,
        Laws.logical_id_choice_lem S (meta_of b) id,
        holds-not S c,
        holds-and S (logical_id_choice S (meta_of b) id) (Ct.not S c),
        holds-or S c matched,
        sel'_is,
        Laws.clear_if_lem S (meta_of b) matched,
        clear_payload_if_lem b.payload matched h.bytes,
        h.sized,
        select_and_remove_lem n id bl sel' (or S c matched) v.1 e',
      )

-- The removal takes one block with the id, if there is one, and no other.
pub count-remove_first :
    (n id j : ℕ) (bl : List OramBlock)
    → count (λ b. holds_id b j) (remove_first n id bl) + (if has_id id bl then bit (id == j) else 0)
      ≡ count (λ b. holds_id b j) bl
unfolding remove_first has_id count Block.dummy
count-remove_first n id j [] = omega arith
count-remove_first n id j (b ∷ bl) = ground (arith, count-remove_first n id j bl)

pub All-remove_first {ℓ} :
    (P : OramBlock → Type ℓ) (n id : ℕ) (bl : List OramBlock)
    → P (Block.dummy n)
    → All P bl
    → All P (remove_first n id bl)
unfolding remove_first
All-remove_first P n id [] d h = tt
All-remove_first P n id (b ∷ bl) d h = elim (Bool-cases (holds_id b id)) [
  | inl e ↦ simp e (d, h.1)
  | inr e ↦ simp e (h.0, All-remove_first P n id bl d h.1)
]

pub All-find_first {ℓ} :
    (P : OramBlock → Type ℓ) (id : ℕ) (d : OramBlock) (bl : List OramBlock)
    → P d
    → All P bl
    → P (find_first id d bl)
unfolding find_first
All-find_first P id d [] p h = p
All-find_first P id d (b ∷ bl) p h = elim (Bool-cases (holds_id b id)) [
  | inl e ↦ simp e h.0
  | inr e ↦ simp e (All-find_first P id d bl p h.1)
]

-- The block found holds the id.
pub find_first-holds_id :
    (id : ℕ) (d : OramBlock) (bl : List OramBlock)
    → has_id id bl ≡ true
    → holds_id (find_first id d bl) id ≡ true
unfolding find_first has_id
find_first-holds_id id d [] h = cc
find_first-holds_id id d (b ∷ bl) h = elim (Bool-cases (holds_id b id)) [
  | inl e ↦ simp e refl
  | inr e ↦ simp e (find_first-holds_id id d bl (rw e at h))
]

pub count-no_id :
    (id : ℕ) (bl : List OramBlock) → has_id id bl ≡ false → count (λ b. holds_id b id) bl ≡ 0
unfolding has_id count
count-no_id id [] h = refl
count-no_id id (b ∷ bl) h = ground (arith, count-no_id id bl)

pub length-remove_first :
    (n id : ℕ) (bl : List OramBlock) → length (remove_first n id bl) ≡ length bl
unfolding remove_first
length-remove_first n id [] = refl
length-remove_first n id (b ∷ bl) = ground (arith, length-remove_first n id bl)
