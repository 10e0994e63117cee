-- ===== src/Controller/Target.antt =====
-- src/circuit.rs: what `read_and_remove_target_path` and `read_and_rewrite_path` leave of a controller.
use oram.Base.{
  ℕ, ◌≡◌, refl, sym, ◌∙◌, true, false, List, [], ◌∷◌, map, length, length-map, All, All-map, arith,
  Bool-cases, inl, inr,
}
use oram.Outcome.{Result, ok}
use oram.Ct.{Subtle, choice_from_bool}
use oram.Ct.Laws.{holds-choice_from_bool}
use oram.Params.{OramParams, path_nodes}
use oram.Block.{OramBlock}
use oram.Block
use oram.Block.Shape.{IsBlock, dummy-IsBlock}
use oram.Stash.Laws.{has_free, insert_into_stash_lem}
use oram.Stash.{insert_into_stash}
use oram.Select.{remove_from_pages}
use oram.Select.Laws.{has_id, All-find_first}
use oram.Select.Path.{remove_path, find_path, PathScanned, remove_from_pages_lem}
use oram.Select.Pages.{IsBucket, meta_page, payload_page}
use oram.Store.{overwrite, PathPageStore}
use oram.Memory.Take.{stashed}
use oram.Controller.{Rng, CircuitOram, read_and_remove_target_path, read_and_rewrite_path}
use oram.Controller.Invariant.{IsOram}
use oram.Controller.Path.{
  IsMetaStore, IsPayloadStore, MetaAnswered, PayloadAnswered, path_buckets, read_metas,
  read_payloads, write_metas, write_payloads, length-remove_path, remove_path-IsBucket,
}

All-find_path :
    (P : OramBlock → Type 0) (id : ℕ) (d : OramBlock) (bls : List (List OramBlock))
    → P d
    → All (All P) bls
    → P (find_path id d bls)
unfolding find_path
All-find_path P id d [] h hs = h
All-find_path P id d (bl ∷ bls) h hs = elim (Bool-cases (has_id id bl)) [
  | inl e ↦ simp e (All-find_first P id d bl h hs.0)
  | inr e ↦ simp e (All-find_path P id d bls h hs.1)
]

module _ (S : Subtle) (R : Rng) (MS PS : PathPageStore) (o : CircuitOram R MS PS)
    (tree : ℕ → List OramBlock) (values : ℕ → List ℕ) (v : IsOram o tree values) (leaf : ℕ) where
  abbrev p : OramParams
  p = o.params

  abbrev path : List ℕ
  path = path_nodes p leaf

  abbrev on_path : List (List OramBlock)
  on_path = map tree path

  on_path-IsBucket : All (IsBucket p.bucket_size p.block_size) on_path
  on_path-IsBucket = path_buckets p v.is_tree tree v.memory.buckets leaf

  -- The controller after the path was written back: new stores, and the stash given.
  pub record PathDone (bls : List (List OramBlock)) (stash : List OramBlock)
      (r : Result (Unit {0}) × CircuitOram R MS PS) : Type 0 where
    pub meta_after : MS.State
    pub payload_after : PS.State
    pub result_is : r ≡ (
      ok tt,
      record o { meta_store = meta_after; payload_store = payload_after; stash = stash },
    )
    pub meta_stored : IsMetaStore MS p (overwrite tree path bls) meta_after
    pub payload_stored : IsPayloadStore PS p (overwrite tree path bls) payload_after

  abbrev metas :
      MetaAnswered MS p tree (MS.read_path_pages path o.meta_store) (map meta_page on_path)
  metas = read_metas p v.is_tree tree v.memory.buckets leaf MS o.meta_store v.meta_stored

  abbrev payloads :
      PayloadAnswered PS p tree (PS.read_path_pages path o.payload_store) (map payload_page on_path)
  payloads =
      read_payloads p v.is_tree tree v.memory.buckets leaf PS o.payload_store v.payload_stored

  -- The path is written back with the buckets `bls`.
  module _ (bls : List (List OramBlock)) (many : length bls ≡ length path)
      (h : All (IsBucket p.bucket_size p.block_size) bls) where
    abbrev metas' :
        MetaAnswered MS p
          (overwrite tree path bls)
          (MS.write_path_pages path (map meta_page bls) metas.after)
          tt
    metas' =
        write_metas p v.is_tree tree v.memory.buckets leaf MS metas.after bls many h metas.stored

    abbrev payloads' :
        PayloadAnswered PS p
          (overwrite tree path bls)
          (PS.write_path_pages path (map payload_page bls) payloads.after)
          tt
    payloads' =
        write_payloads p v.is_tree tree v.memory.buckets leaf PS payloads.after bls many h
          payloads.stored

  pub read_and_rewrite_path_lem : PathDone on_path o.stash (read_and_rewrite_path S R MS PS leaf o)
  unfolding read_and_rewrite_path
  read_and_rewrite_path_lem =
      let m' = metas' on_path (length-map path tree) on_path-IsBucket in
      let q' = payloads' on_path (length-map path tree) on_path-IsBucket in
      record {
        meta_after = m'.after;
        payload_after = q'.after;
        result_is =
            rw (metas.result_is)
              (rw (payloads.result_is) (rw (m'.result_is) (rw (q'.result_is) refl)));
        meta_stored = m'.stored;
        payload_stored = q'.stored;
      }

  module _ (id : ℕ) (free : has_free o.stash ≡ true) where
    abbrev dummy : OramBlock
    dummy = Block.dummy p.block_size

    abbrev removed : List (List OramBlock)
    removed = remove_path p.block_size id on_path

    abbrev found : OramBlock
    found = find_path id dummy on_path

    scanned : PathScanned S p v.block_size_pos id on_path dummy false (
        remove_from_pages S p id
          (map meta_page on_path)
          (map payload_page on_path)
          dummy
          (choice_from_bool S false))
    scanned =
        let run =
          remove_from_pages_lem S p v.block_size_pos id on_path dummy (choice_from_bool S false)
            on_path-IsBucket (dummy-IsBlock p.block_size).sized in
        rw (holds-choice_from_bool S false) at run

    found-IsBlock : IsBlock p.block_size found
    found-IsBlock =
        All-find_path (IsBlock p.block_size) id dummy on_path (dummy-IsBlock p.block_size)
          (All-map (λ bl u. u.blocks) on_path on_path-IsBucket)

    insert_is : insert_into_stash S p found o.stash ≡ (ok tt, stashed found o.stash)
    unfolding stashed
    insert_is = ground (
      arith,
      insert_into_stash_lem S p found o.stash
          (All-map (λ b u. u.sized ∙ sym (found-IsBlock.sized)) o.stash v.memory.stash_blocks),
      free,
    )

    pub read_and_remove_target_path_lem :
        PathDone removed (stashed found o.stash) (read_and_remove_target_path S R MS PS leaf id o)
    unfolding read_and_remove_target_path
    read_and_remove_target_path_lem =
        let many = length-remove_path p.block_size id on_path ∙ length-map path tree in
        let shaped = remove_path-IsBucket p.bucket_size p.block_size id on_path on_path-IsBucket in
        let m' = metas' removed many shaped in
        let q' = payloads' removed many shaped in
        record {
          meta_after = m'.after;
          payload_after = q'.after;
          result_is =
              rw (metas.result_is, payloads.result_is, scanned.result_is, scanned.selected_is)
                (rw insert_is
                  (rw (scanned.metas_are, m'.result_is, scanned.payloads_are, q'.result_is) refl));
          meta_stored = m'.stored;
          payload_stored = q'.stored;
        }
