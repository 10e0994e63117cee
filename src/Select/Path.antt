-- ===== src/Select/Path.antt =====
-- src/circuit.rs: the scan of a whole path, against a removal from the first bucket with a match.
use oram.Base.{
  ℕ, ◌<◌, ◌≡◌, refl, ap, ◌∙◌, Bool, false, ◌||◌, List, [], ◌∷◌, map, length, All, All-map,
  if◌then◌else◌, arith, Bool-cases, inl, inr,
}
use oram.Outcome.{Result, ok}
use oram.Ct.{Subtle}
use oram.Ct.Laws.{holds}
use oram.Params.{OramParams}
use oram.Block.{OramBlock}
use oram.Block.Shape.{IsBlock, dummy-IsBlock}
use oram.Meta
use oram.Payload
use oram.Select.{remove_from_pages, select_and_remove_target_slots, PathScan, Scan}
use oram.Select.Laws.{
  meta_of, payload_of, has_id, remove_first, find_first, Scanned, select_and_remove_lem,
  All-remove_first, All-find_first, length-remove_first,
}
use oram.Select.Pages.{
  IsBucket, meta_page, payload_page, decode-meta_page, encode-meta_page, decode-payload_page,
  encode-payload_page,
}

unfoldable pub path_has : ℕ → List (List OramBlock) → Bool
path_has id [] = false
path_has id (bl ∷ bls) = has_id id bl || path_has id bls

unfoldable pub remove_path : ℕ → ℕ → List (List OramBlock) → List (List OramBlock)
remove_path n id [] = []
remove_path n id (bl ∷ bls) =
    if has_id id bl then remove_first n id bl ∷ bls else bl ∷ remove_path n id bls

unfoldable pub find_path : ℕ → OramBlock → List (List OramBlock) → OramBlock
find_path id d [] = d
find_path id d (bl ∷ bls) = if has_id id bl then find_first id d bl else find_path id d bls

remove_first-none :
    (n id : ℕ) (bl : List OramBlock) → has_id id bl ≡ false → remove_first n id bl ≡ bl
unfolding remove_first has_id
remove_first-none n id [] h = refl
remove_first-none n id (b ∷ bl) h = ground (arith, remove_first-none n id bl)

find_first-none :
    (id : ℕ) (d : OramBlock) (bl : List OramBlock) → has_id id bl ≡ false → find_first id d bl ≡ d
unfolding find_first has_id
find_first-none id d [] h = refl
find_first-none id d (b ∷ bl) h = ground (arith, find_first-none id d bl)

pub remove_first-IsBucket :
    {z : ℕ} (n id : ℕ) (bl : List OramBlock) → IsBucket z n bl → IsBucket z n (remove_first n id bl)
remove_first-IsBucket n id bl v = record {
  slots = length-remove_first n id bl ∙ v.slots;
  blocks = All-remove_first (IsBlock n) n id bl (dummy-IsBlock n) v.blocks;
}

module _ (S : Subtle) (p : OramParams) (pos : 0 < p.block_size) where
  open S use {Choice}

  -- The result of the scan of a path, as a fact about the blocks of its buckets.
  pub record PathScanned (id : ℕ) (bls : List (List OramBlock)) (sel : OramBlock) (before : Bool)
      (r : Result (PathScan S)) : Type 0 where
    pub scan : PathScan S
    pub result_is : r ≡ ok scan
    pub metas_are :
        scan.meta_pages ≡ map meta_page (if before then bls else remove_path p.block_size id bls)
    pub payloads_are :
        scan.payload_pages
        ≡ map payload_page (if before then bls else remove_path p.block_size id bls)
    pub selected_is : scan.selected ≡ (if before then sel else find_path id sel bls)
    pub removed_is : holds S scan.removed ≡ (before || path_has id bls)

  -- One bucket of the path, before the others.
  module _ (id : ℕ) (bl : List OramBlock) (bls : List (List OramBlock)) (sel : OramBlock)
      (c : Choice) (v : IsBucket p.bucket_size p.block_size bl)
      (e : length sel.payload ≡ p.block_size) where
    abbrev run : Scan S
    run = select_and_remove_target_slots S (map meta_of bl) (map payload_of bl) id sel c

    scanned : Scanned S p.block_size id bl sel (holds S c) run
    scanned = select_and_remove_lem S p.block_size id bl sel c v.blocks e

    abbrev after : List OramBlock
    after = if holds S c then bl else remove_first p.block_size id bl

    after_is : IsBucket p.bucket_size p.block_size after
    after_is = elim (Bool-cases (holds S c)) [
      | inl y ↦ rw y v
      | inr y ↦ rw y (remove_first-IsBucket p.block_size id bl v)
    ]

    selected_sized : length run.selected.payload ≡ p.block_size
    selected_sized =
        ap (λ b. length (payload_of b)) scanned.selected_is ∙ (elim (Bool-cases (holds S c)) [
          | inl y ↦ rw y e
          | inr y ↦ rw y (
              All-find_first (λ b. length b.payload ≡ p.block_size) id sel bl e
                (All-map (λ b h. h.sized) bl v.blocks))
        ])

    bucket_then :
        PathScanned id bls run.selected (holds S run.removed) (
          remove_from_pages S p id
            (map meta_page bls)
            (map payload_page bls)
            run.selected
            run.removed)
        → PathScanned id (bl ∷ bls) sel (holds S c) (
            remove_from_pages S p id (map meta_page (bl ∷ bls)) (map payload_page (bl ∷ bls)) sel c)
    unfolding remove_from_pages path_has remove_path find_path
    bucket_then rest = record {
      scan = record (rest.scan) {
        meta_pages = meta_page after ∷ rest.scan.meta_pages;
        payload_pages = payload_page after ∷ rest.scan.payload_pages;
      };
      result_is = rw (decode-meta_page bl v) (
          rw (decode-payload_page bl v pos) (
            rw
              (ap (λ m. Meta.encode (record { slots = m }) p.bucket_size) scanned.metas_are
                ∙ encode-meta_page after after_is)
              (rw
                (ap (λ q. Payload.encode (record { slots = q }) p.bucket_size p.block_size)
                    scanned.payloads_are
                  ∙ encode-payload_page after after_is)
                (rw rest.result_is))));
      metas_are =
          ground (arith, rest.metas_are, scanned.removed_is, remove_first-none p.block_size id bl);
      payloads_are =
          ground
            (arith, rest.payloads_are, scanned.removed_is, remove_first-none p.block_size id bl);
      selected_is = ground (
        arith,
        rest.selected_is,
        scanned.selected_is,
        scanned.removed_is,
        find_first-none id sel bl,
      );
      removed_is = ground (arith, rest.removed_is, scanned.removed_is);
    }

  -- With a positive block size, over the pages of well-formed buckets, with a payload of the block
  -- size in `selected`, the scan of a path succeeds. Unless a block was removed before, it
  -- replaces the first block with the id by a dummy, selects that block, and leaves all other
  -- pages as they were; the flag then says whether there was one.
  pub remove_from_pages_lem :
      (id : ℕ) (bls : List (List OramBlock)) (sel : OramBlock) (c : Choice)
      → All (IsBucket p.bucket_size p.block_size) bls
      → length sel.payload ≡ p.block_size
      → PathScanned id bls sel
          (holds S c)
          (remove_from_pages S p id (map meta_page bls) (map payload_page bls) sel c)
  unfolding remove_from_pages path_has remove_path find_path
  remove_from_pages_lem id [] sel c v e = record {
    scan = record { meta_pages = []; payload_pages = []; selected = sel; removed = c };
    result_is = refl;
    metas_are = ground arith;
    payloads_are = ground arith;
    selected_is = ground arith;
    removed_is = ground arith;
  }
  remove_from_pages_lem id (bl ∷ bls) sel c v e = bucket_then id bl bls sel c v.0 e (
      remove_from_pages_lem id bls (run id bl bls sel c v.0 e).selected
        (run id bl bls sel c v.0 e).removed v.1 (selected_sized id bl bls sel c v.0 e))
