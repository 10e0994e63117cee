-- ===== src/Select.antt =====
-- src/circuit.rs: the target block is selected and removed by a scan of every slot of its path.
pub mod Laws
pub mod Pages
pub mod Path
pub mod Remove
use oram.Base.{ℕ, ◌-◌, Bool, not, List, [], ◌∷◌, map, bit, bit_and, ◌==◌}
use oram.Outcome.{Result, ok, ◌>>=◌}
use oram.Ct.{Subtle, and, or, cmov_u8, cmov_u32, cmov_u64, cmov_bytes, mask8}
use oram.Ct
use oram.Params.{OramParams}
use oram.Block.{OramBlock}
use oram.Meta.{CircuitMetaSlot, CircuitMetaBucket, logical_id_choice, clear_if}
use oram.Meta
use oram.Payload.{CircuitPayloadBucket}
use oram.Payload

module _ (S : Subtle) where
  open S use {Choice}

  pub cmov_block_from_meta_payload : OramBlock → CircuitMetaSlot → List ℕ → Choice → OramBlock
  cmov_block_from_meta_payload block meta payload choice =
      let occupied = cmov_u8 S (bit block.occupied) (bit meta.occupied) choice in
      record {
        occupied = not (occupied == 0);
        logical_id = cmov_u64 S block.logical_id meta.logical_id choice;
        leaf = cmov_u32 S block.leaf meta.leaf choice;
        payload = cmov_bytes S block.payload payload choice;
      }

  pub clear_payload_if : List ℕ → Choice → List ℕ
  clear_payload_if payload choice =
      let keep_mask = 255 - mask8 S choice in map (λ byte. bit_and byte keep_mask) payload

  -- The slots left, and the block selected and whether one was removed, which the calls thread.
  pub record Scan : Type 0 where
    pub metas : List CircuitMetaSlot
    pub payloads : List (List ℕ)
    pub selected : OramBlock
    pub removed : Choice

  pub select_and_remove_target_slots :
      List CircuitMetaSlot → List (List ℕ) → ℕ → OramBlock → Choice → Scan
  select_and_remove_target_slots [] payloads logical_id selected removed = record {
    metas = [];
    payloads = payloads;
    selected = selected;
    removed = removed;
  }
  select_and_remove_target_slots (meta ∷ metas) [] logical_id selected removed = record {
    metas = meta ∷ metas;
    payloads = [];
    selected = selected;
    removed = removed;
  }
  select_and_remove_target_slots (meta ∷ metas) (payload ∷ payloads) logical_id selected removed =
      let matched = and S (logical_id_choice S meta logical_id) (Ct.not S removed) in
      let rest : Scan =
        select_and_remove_target_slots metas payloads logical_id
          (cmov_block_from_meta_payload selected meta payload matched) (or S removed matched) in
      record rest {
        metas = clear_if S meta matched ∷ rest.metas;
        payloads = clear_payload_if payload matched ∷ rest.payloads;
      }

  -- The pages of a path after the scan.
  pub record PathScan : Type 0 where
    pub meta_pages : List (List ℕ)
    pub payload_pages : List (List ℕ)
    pub selected : OramBlock
    pub removed : Choice

  -- The loop over the pages of a path, the same in `read_and_remove_target_path` and
  -- `remove_target_from_overlays`; the loop stops at the shorter list.
  pub remove_from_pages :
      OramParams → ℕ → List (List ℕ) → List (List ℕ) → OramBlock → Choice → Result PathScan
  remove_from_pages p logical_id [] payload_pages selected removed = ok (record {
    meta_pages = [];
    payload_pages = payload_pages;
    selected = selected;
    removed = removed;
  })
  remove_from_pages p logical_id (m ∷ meta_pages) [] selected removed = ok (record {
    meta_pages = m ∷ meta_pages;
    payload_pages = [];
    selected = selected;
    removed = removed;
  })
  remove_from_pages p logical_id (m ∷ meta_pages) (q ∷ payload_pages) selected removed = do
    meta_bucket ← Meta.decode m p.bucket_size
    payload_bucket ← Payload.decode q p.bucket_size p.block_size
    let scan =
        select_and_remove_target_slots meta_bucket.slots payload_bucket.slots logical_id selected
          removed
    m' ← Meta.encode (record { slots = scan.metas }) p.bucket_size
    q' ← Payload.encode (record { slots = scan.payloads }) p.bucket_size p.block_size
    rest ← remove_from_pages p logical_id meta_pages payload_pages scan.selected scan.removed
    ok (record rest { meta_pages = m' ∷ rest.meta_pages; payload_pages = q' ∷ rest.payload_pages })
