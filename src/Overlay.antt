-- ===== src/Overlay.antt =====
-- src/circuit.rs: the pages of several paths, read once, changed in memory and written back. The
-- `BTreeMap` is a function of the page index.
pub mod Laws
use oram.Base.{
  ℕ, Bool, true, false, not, ◌&&◌, List, [], ◌∷◌, Option, none, some, length, update, ◌==◌,
  if◌then◌else◌,
}
use oram.Outcome.{Result, ok, err, invalid_input, expect, ◌>>=◌, ◌>>◌, reject_if}
use oram.Outcome.Stateful.{M, continue, pure}
use oram.Ct.{Subtle, choice_from_bool}
use oram.Params.{OramParams}
use oram.Block.{OramBlock}
use oram.Block
use oram.Meta
use oram.Meta.{CircuitMetaBucket}
use oram.Payload
use oram.Stash.{insert_into_stash}
use oram.Select.{select_and_remove_target_slots}
use oram.Store.{Page}

abbrev pub Overlay : Type 0
Overlay = ℕ → Option Page

unfoldable pub same_page : Page → Page → Bool
same_page [] [] = true
same_page [] (y ∷ ys) = false
same_page (x ∷ xs) [] = false
same_page (x ∷ xs) (y ∷ ys) = x == y && same_page xs ys

-- `if let Some(existing) = overlay.get(page_idx)`
insert_new : Overlay → ℕ → Page → Option Page → Result Overlay
insert_new overlay page_idx page none = ok (update overlay page_idx (some page))
insert_new overlay page_idx page (some existing) =
    if not (same_page existing page) then err invalid_input else ok overlay

-- The pages of one path, and then of all.
overlay_pages : ℕ → List ℕ → List Page → Overlay → Result Overlay
unfolding insert_new
overlay_pages page_size [] pages overlay = ok overlay
overlay_pages page_size (page_idx ∷ path) [] overlay = ok overlay
overlay_pages page_size (page_idx ∷ path) (page ∷ pages) overlay = do
  reject_if (not (length page == page_size)) invalid_input
  overlay' ← insert_new overlay page_idx page (overlay page_idx)
  overlay_pages page_size path pages overlay'

overlay_paths : ℕ → List (List ℕ) → List (List Page) → Overlay → Result Overlay
unfolding overlay_pages
overlay_paths page_size [] path_pages overlay = ok overlay
overlay_paths page_size (path ∷ paths) [] overlay = ok overlay
overlay_paths page_size (path ∷ paths) (pages ∷ path_pages) overlay = do
  reject_if (not (length path == length pages)) invalid_input
  overlay' ← overlay_pages page_size path pages overlay
  overlay_paths page_size paths path_pages overlay'

pub overlay_path_pages : List (List ℕ) → List (List Page) → ℕ → Result Overlay
unfolding overlay_paths
overlay_path_pages paths path_pages page_size = do
  reject_if (not (length paths == length path_pages)) invalid_input
  overlay_paths page_size paths path_pages (λ i. none)

-- `overlay.get(page_idx).ok_or_else(..)`
abbrev pub ok_or : Option Page → Result Page
ok_or none = err invalid_input
ok_or (some page) = ok page

collect_path : List ℕ → Overlay → Result (List Page)
collect_path [] overlay = ok []
collect_path (page_idx ∷ path) overlay = do
  page ← ok_or (overlay page_idx)
  pages ← collect_path path overlay
  ok (page ∷ pages)

pub collect_overlay_paths : List (List ℕ) → Overlay → Result (List (List Page))
unfolding collect_path
collect_overlay_paths [] overlay = ok []
collect_overlay_paths (path ∷ paths) overlay = do
  pages ← collect_path path overlay
  out ← collect_overlay_paths paths overlay
  ok (pages ∷ out)

-- The overlays of the two stores.
pub record Overlays : Type 0 where
  pub meta : Overlay
  pub payload : Overlay

module _ (S : Subtle) where
  open S use {Choice}

  -- The loop of `remove_target_from_overlays`, which ends with the block selected.
  remove_from_overlays :
      OramParams → List ℕ → ℕ → Overlays → OramBlock → Choice → Result (Overlays × OramBlock)
  remove_from_overlays p [] logical_id o selected removed = ok (o, selected)
  remove_from_overlays p (page_idx ∷ path) logical_id o selected removed = do
    meta_buf ← expect (o.meta page_idx)
    payload_buf ← expect (o.payload page_idx)
    meta_bucket ← Meta.decode meta_buf p.bucket_size
    payload_bucket ← Payload.decode payload_buf p.bucket_size p.block_size
    let scan =
        select_and_remove_target_slots S meta_bucket.slots payload_bucket.slots logical_id selected
          removed
    meta_buf' ← Meta.encode (record { slots = scan.metas }) p.bucket_size
    payload_buf' ← Payload.encode (record { slots = scan.payloads }) p.bucket_size p.block_size
    remove_from_overlays p path logical_id
        (record {
          meta = update o.meta page_idx (some meta_buf');
          payload = update o.payload page_idx (some payload_buf');
        })
        scan.selected scan.removed

  -- The overlays are local to a batch, so what they are after an error is left out.
  pub remove_target_from_overlays : OramParams → List ℕ → ℕ → Overlays → M (List OramBlock) Overlays
  unfolding remove_from_overlays
  remove_target_from_overlays p path logical_id o stash =
      continue (λ done s. continue (λ u. pure done.0) (insert_into_stash S p done.1 s))
        (
          remove_from_overlays p path logical_id o (Block.dummy p.block_size)
              (choice_from_bool S false),
          stash,
        )
