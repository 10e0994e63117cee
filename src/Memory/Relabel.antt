-- ===== src/Memory/Relabel.antt =====
-- src/circuit.rs: the block of an id, given a new value and leaf in the stash.
use oram.Base.{
  ℕ, zero, suc, ◌+◌, ◌^◌, ◌≡◌, ◌<◌, ◌≤◌, refl, sym, ap, ap₂, ◌∙◌, true, false, List, [], ◌∷◌, map,
  length, length-map, length-set, get_or, get_or-set, set, All, update, sum_over, sum_over-term,
  bit, ◌==◌, ==→eq, arith, if◌then◌else◌, Bool-cases, inl, inr,
}
use oram.Base.Bytes.{IsBytes}
use oram.Base.Count.{count}
use oram.Params.{OramParams, bucket_count, path_nodes}
use oram.Block.{OramBlock}
use oram.Block.Laws.{holds_id}
use oram.Block.Shape.{IsBlock}
use oram.Select.Laws.{has_id}
use oram.Select.Remove.{on_path}
use oram.Controller.Scan.{relabel}
use oram.Memory.{IsRight, IsPlaced, IsMemory}

All-set {ℓ κ} :
    {A : Type ℓ} (P : A → Type κ) (xs : List A) (i : ℕ) (x : A)
    → P x
    → All P xs
    → All P (set xs i x)
All-set P [] i x h hs = tt
All-set P (y ∷ xs) zero x h hs = (h, hs.1)
All-set P (y ∷ xs) (suc i) x h hs = (hs.0, All-set P xs i x h hs.1)

-- Without a count there is no block of the id.
count-none :
    (id : ℕ) (bl : List OramBlock)
    → count (λ b. holds_id b id) bl ≡ 0
    → All (λ b. holds_id b id ≡ false) bl
unfolding count
count-none id [] h = tt
count-none id (b ∷ bl) h = (ground arith, count-none id bl (ground arith))

has_id-count :
    (id : ℕ) (bl : List OramBlock) → has_id id bl ≡ true → 1 ≤ count (λ b. holds_id b id) bl
unfolding has_id count
has_id-count id [] h = absurd (ground arith)
has_id-count id (b ∷ bl) h = ground (arith, has_id-count id bl)

module _ (id leaf : ℕ) (payload : List ℕ) where
  relabel-holds : (b : OramBlock) (j : ℕ) → holds_id (relabel id payload leaf b) j ≡ holds_id b j
  unfolding relabel
  relabel-holds b j = ground arith

  count-relabel :
      (j : ℕ) (bl : List OramBlock)
      → count (λ b. holds_id b j) (map (relabel id payload leaf) bl) ≡ count (λ b. holds_id b j) bl
  unfolding count
  count-relabel j [] = refl
  count-relabel j (b ∷ bl) = ap₂ ◌+◌ (ap bit (relabel-holds b j)) (count-relabel j bl)

  All-relabel {κ λ₀} :
      (P : OramBlock → Type κ) (Q : OramBlock → Type λ₀)
      → ((b : OramBlock) → P b → Q (relabel id payload leaf b))
      → (bl : List OramBlock) → All P bl
      → All Q (map (relabel id payload leaf) bl)
  All-relabel P Q f [] h = tt
  All-relabel P Q f (b ∷ bl) h = (f b h.0, All-relabel P Q f bl h.1)

module _ (p : OramParams) (pos_map : List ℕ) (stash : List OramBlock) (tree : ℕ → List OramBlock)
    (values : ℕ → List ℕ) (v : IsMemory p pos_map stash tree values) (id : ℕ)
    (lt : id < p.logical_blocks) (here : has_id id stash ≡ true) (leaf : ℕ)
    (leaf_lt : leaf < p.leaves) (leaf_fits : leaf < 2 ^ 32) (payload : List ℕ)
    (sized : length payload ≡ p.block_size) (bytes : IsBytes payload) where
  abbrev pos_map' : List ℕ
  pos_map' = set pos_map id leaf

  abbrev values' : ℕ → List ℕ
  values' = update values id payload

  leaf_of : (j : ℕ) → get_or pos_map' j 0 ≡ (if id == j then leaf else get_or pos_map j 0)
  leaf_of j = get_or-set pos_map id j leaf 0 (rw (v.pos_map_sized) lt)

  tree_has-no : (n : ℕ) → n < bucket_count p → All (λ b. holds_id b id ≡ false) (tree n)
  tree_has-no n h = count-none id (tree n) (
      omega (
        arith,
        v.once id lt,
        has_id-count id stash here,
        sum_over-term (λ k. count (λ b. holds_id b id) (tree k)) (bucket_count p) n h,
      ))

  relabel-IsBlock :
      (b : OramBlock) → IsBlock p.block_size b → IsBlock p.block_size (relabel id payload leaf b)
  unfolding relabel
  relabel-IsBlock b h = elim (Bool-cases (holds_id b id)) [
    | inl e ↦
        rw e (record { sized = sized; bytes = bytes; id_fits = h.id_fits; leaf_fits = leaf_fits })
    | inr e ↦ rw e h
  ]

  -- Another block is as right as before.
  other-IsRight :
      (b : OramBlock) (j : ℕ)
      → id == j ≡ false
      → IsRight p pos_map values b j
      → IsRight p pos_map' values' b j
  other-IsRight b j e h = record {
    id_in_range = h.id_in_range;
    payload_is = rw e (h.payload_is);
    leaf_is = h.leaf_is ∙ ground (arith, leaf_of j);
  }

  self-IsRight :
      (b : OramBlock) (j : ℕ)
      → id == j ≡ true
      → IsRight p pos_map' values' (record b { payload = payload; leaf = leaf }) j
  self-IsRight b j e = record {
    id_in_range = rw (← ==→eq id j e) lt;
    payload_is = rw e refl;
    leaf_is = sym (leaf_of j ∙ ground (arith, e));
  }

  relabel-IsRight :
      (b : OramBlock)
      → ((j : ℕ) → holds_id b j ≡ true → IsRight p pos_map values b j)
      → (j : ℕ) → holds_id (relabel id payload leaf b) j ≡ true
      → IsRight p pos_map' values' (relabel id payload leaf b) j
  unfolding relabel
  relabel-IsRight b h j hj = elim (Bool-cases (holds_id b id)) [
    | inl e ↦ rw e (self-IsRight b j (ground (arith, relabel-holds id leaf payload b j)))
    | inr e ↦
        let hb : holds_id b j ≡ true = sym (relabel-holds id leaf payload b j) ∙ hj in
        rw e (other-IsRight b j (ground arith) (h j hb))
  ]

  other-IsPlaced :
      (n : ℕ) (bl : List OramBlock)
      → All (λ b. holds_id b id ≡ false) bl
      → All (IsPlaced p pos_map values n) bl
      → All (IsPlaced p pos_map' values' n) bl
  other-IsPlaced n [] none h = tt
  other-IsPlaced n (b ∷ bl) none h = (
    λ j hj.
        let e : id == j ≡ false = ground (arith, none.0) in
        (
          other-IsRight b j e (h.0 j hj).0,
          ap (λ l. on_path (path_nodes p l) n) (leaf_of j ∙ ground (arith, e)) ∙ (h.0 j hj).1,
        ),
    other-IsPlaced n bl none.1 h.1,
  )

  values'_all :
      (P : List ℕ → Type 0)
      → ((j : ℕ) → j < p.logical_blocks → P (values j))
      → P payload
      → (j : ℕ) → j < p.logical_blocks
      → P (values' j)
  values'_all P h h' j lt' = elim (Bool-cases (id == j)) [
    | inl e ↦ rw e h'
    | inr e ↦ rw e (h j lt')
  ]

  -- A block in the stash with a new payload and leaf: the memory has the new value for its id, and
  -- the same values for all others.
  pub relabel_lem : IsMemory p pos_map' (map (relabel id payload leaf) stash) tree values'
  relabel_lem = record {
    pos_map_sized = length-set pos_map id leaf ∙ v.pos_map_sized;
    leaves_in_range = All-set _ pos_map id leaf leaf_lt v.leaves_in_range;
    stash_sized = length-map stash (relabel id payload leaf) ∙ v.stash_sized;
    stash_blocks = All-relabel id leaf payload _ _ relabel-IsBlock stash v.stash_blocks;
    stash_right = All-relabel id leaf payload _ _ relabel-IsRight stash v.stash_right;
    buckets = v.buckets;
    placed = λ n h. other-IsPlaced n (tree n) (tree_has-no n h) (v.placed n h);
    once = λ j h.
        ap (λ c. c + sum_over (λ n. count (λ b. holds_id b j) (tree n)) (bucket_count p))
          (count-relabel id leaf payload j stash)
        ∙ v.once j h;
    values_sized = values'_all (λ x. length x ≡ p.block_size) v.values_sized sized;
    values_bytes = values'_all IsBytes v.values_bytes bytes;
  }
