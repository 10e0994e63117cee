-- ===== src/Controller/Path.antt =====
-- src/circuit.rs: the requests that an access makes to the stores.
use oram.Base.{
  Bool-cases, inl, inr, ℕ, ◌≡◌, ◌<◌, refl, sym, ◌∙◌, List, [], ◌∷◌, map, length, length-map, All,
  arith,
}
use oram.Outcome.{Result}
use oram.Params.{OramParams, bucket_count, path_nodes}
use oram.Params.Geometry.{IsTree, path_nodes-lt}
use oram.Block.{OramBlock}
use oram.Select.Laws.{has_id}
use oram.Select.Path.{remove_path, remove_first-IsBucket}
use oram.Select.Pages.{IsBucket, meta_page, payload_page, length-meta_page, length-payload_page}
use oram.Store.{InRange, overwrite, PathPageStore}
use oram.Meta.{circuit_meta_page_bytes}
use oram.Payload.{circuit_payload_page_bytes}
use oram.Store.Stored.{IsStored, Answered, read_tree-Answered, write_tree-Answered}

pub length-remove_path :
    (n id : ℕ) (bls : List (List OramBlock)) → length (remove_path n id bls) ≡ length bls
unfolding remove_path
length-remove_path n id [] = refl
length-remove_path n id (bl ∷ bls) = ground (arith, length-remove_path n id bls)

pub remove_path-IsBucket :
    (z n id : ℕ) (bls : List (List OramBlock))
    → All (IsBucket z n) bls
    → All (IsBucket z n) (remove_path n id bls)
unfolding remove_path
remove_path-IsBucket z n id [] h = tt
remove_path-IsBucket z n id (bl ∷ bls) h = elim (Bool-cases (has_id id bl)) [
  | inl e ↦ simp e (remove_first-IsBucket n id bl h.0, h.1)
  | inr e ↦ simp e (h.0, remove_path-IsBucket z n id bls h.1)
]

module _ (z n : ℕ) where
  buckets_of :
      (tree : ℕ → List OramBlock) (count : ℕ) (path : List ℕ)
      → ((i : ℕ) → i < count → IsBucket z n (tree i))
      → InRange count path
      → All (IsBucket z n) (map tree path)
  buckets_of tree count [] v h = tt
  buckets_of tree count (i ∷ path) v h = (v i h.0, buckets_of tree count path v h.1)

  pages_sized :
      (page : List OramBlock → List ℕ) (size : ℕ)
      → ((bl : List OramBlock) → IsBucket z n bl → length (page bl) ≡ size)
      → (bls : List (List OramBlock)) → All (IsBucket z n) bls
      → All (λ q. length q ≡ size) (map page bls)
  pages_sized page size f [] h = tt
  pages_sized page size f (bl ∷ bls) h = (f bl h.0, pages_sized page size f bls h.1)

-- What the stores keep of a tree: the metadata of its buckets, and the payloads.
abbrev pub IsMetaStore : (P : PathPageStore) → OramParams → (ℕ → List OramBlock) → P.State → Type 0
IsMetaStore P p tree s =
    IsStored P.view s (circuit_meta_page_bytes p.bucket_size) (bucket_count p)
      (λ n. meta_page (tree n))

abbrev pub IsPayloadStore :
    (P : PathPageStore) → OramParams → (ℕ → List OramBlock) → P.State → Type 0
IsPayloadStore P p tree s =
    IsStored P.view s (circuit_payload_page_bytes p.bucket_size p.block_size) (bucket_count p)
      (λ n. payload_page (tree n))

-- A request to one of the stores, after which it holds the same half of `tree`.
abbrev pub MetaAnswered :
    (P : PathPageStore) {A : Type 0}
    → OramParams
    → (ℕ → List OramBlock)
    → Result A × P.State
    → A
    → Type 0
MetaAnswered P p tree r a =
    Answered P.view r a (circuit_meta_page_bytes p.bucket_size) (bucket_count p)
      (λ n. meta_page (tree n))

abbrev pub PayloadAnswered :
    (P : PathPageStore) {A : Type 0}
    → OramParams
    → (ℕ → List OramBlock)
    → Result A × P.State
    → A
    → Type 0
PayloadAnswered P p tree r a =
    Answered P.view r a (circuit_payload_page_bytes p.bucket_size p.block_size) (bucket_count p)
      (λ n. payload_page (tree n))

module _ (p : OramParams) (t : IsTree p) (tree : ℕ → List OramBlock)
    (shaped : (i : ℕ) → i < bucket_count p → IsBucket p.bucket_size p.block_size (tree i))
    (leaf : ℕ) where
  abbrev path : List ℕ
  path = path_nodes p leaf

  pub path_buckets : All (IsBucket p.bucket_size p.block_size) (map tree path)
  path_buckets = buckets_of _ _ tree (bucket_count p) path shaped (path_nodes-lt leaf t)

  abbrev path_in : InRange (bucket_count p) path
  path_in = path_nodes-lt leaf t

  module _ (P : PathPageStore) (s : P.State) where
    pub read_metas :
        (v : IsMetaStore P p tree s)
        → MetaAnswered P p tree (P.read_path_pages path s) (map meta_page (map tree path))
    read_metas v = read_tree-Answered P meta_page tree _ _ path path_in s v

    pub read_payloads :
        (v : IsPayloadStore P p tree s)
        → PayloadAnswered P p tree (P.read_path_pages path s) (map payload_page (map tree path))
    read_payloads v = read_tree-Answered P payload_page tree _ _ path path_in s v

    -- The path is written back with the buckets `bls`.
    module _ (bls : List (List OramBlock)) (many : length bls ≡ length path)
        (h : All (IsBucket p.bucket_size p.block_size) bls) where
      pub write_metas :
          IsMetaStore P p tree s
          → MetaAnswered P p
              (overwrite tree path bls)
              (P.write_path_pages path (map meta_page bls) s)
              tt
      write_metas v = write_tree-Answered P meta_page tree _ _ path path_in s v bls (record {
        many = sym many ∙ sym (length-map bls meta_page);
        sized = pages_sized _ _ meta_page _ (λ bl u. length-meta_page bl u) bls h;
      })

      pub write_payloads :
          IsPayloadStore P p tree s
          → PayloadAnswered P p
              (overwrite tree path bls)
              (P.write_path_pages path (map payload_page bls) s)
              tt
      write_payloads v = write_tree-Answered P payload_page tree _ _ path path_in s v bls (record {
        many = sym many ∙ sym (length-map bls payload_page);
        sized = pages_sized _ _ payload_page _ (λ bl u. length-payload_page bl u) bls h;
      })
