-- ===== src/Merkle/Tiered/Loops.antt =====
-- src/merkle.rs, `TieredMerklePageStore` over a hash store that keeps its promises: the loops of
-- `verify_page_hash` and `update_page_hash` return, and do what `Merkle.Commit` says.
use oram.Base.{
  ℕ, zero, suc, ◌+◌, ◌*◌, ◌/◌, ◌<◌, ◌≡◌, refl, sym, ap, ap₂, ◌∙◌, length, update, update_self,
  subst, Bool-cases, inl, inr, ltb, leb, leb→le, ltb→lt, ◌==◌, ==→eq, ==→ne, arith, bit_and,
  bit_xor,
}
use oram.Base.Bits.Zero.{bit_and-one, bit_xor-one}
use oram.Outcome.{Result, ok, index}
use oram.Outcome.Stateful.{M, continue}
use oram.Store.{PageStore}
use oram.Store.Operations.{PageOperations, operations}
use oram.Merkle.{Hash, Sha256, hash_node, sibling_node, is_left_child}
use oram.Merkle.Hashes.{length-hash_node, hash_eq_self}
use oram.Merkle.Commit.{Holds, rehash_up, parent_hash}
use oram.Merkle.Tree.Refine.{index_ok}
use oram.Merkle.Tiered.{
  TieredMerklePageStore, read_hash, write_hash, hash_parent, climb, verify_page_hash, update_up,
  update_page_hash,
}
use oram.Merkle.Tiered.Packing.{hash_of_trusted}
use oram.Merkle.Tiered.Climb.{ltb_of_leb}
use oram.Merkle.Tiered.Held.{HasRoom, hash_at, Held, read_hash_lem, write_hash_lem}

sibling_in_tree :
    (leaf_base n : ℕ)
    → 1 < n
    → n < leaf_base * 2
    → (0 < sibling_node n) × (sibling_node n < leaf_base * 2)
unfolding sibling_node
sibling_in_tree leaf_base n top lt = ground (arith, bit_xor-one n)

module _ (sha : Sha256) (S : PageOperations) (P : PageStore) where
  -- From a node and its sibling, the hash of their parent.
  hash_parent_lem :
      (leaf_base : ℕ) (h : ℕ → Hash) (n : ℕ)
      → hash_parent sha S (operations P) n (h n) (h (sibling_node n))
        ≡ parent_hash sha leaf_base h n
  unfolding hash_parent is_left_child sibling_node parent_hash
  hash_parent_lem leaf_base h n = elim (Bool-cases (bit_and n 1 == 0)) [
    | inl t ↦
        let left : n ≡ n / 2 * 2 = omega (arith, bit_and-one n, ==→eq _ 0 t) in
        let right : bit_xor n 1 ≡ n / 2 * 2 + 1 =
          ground (arith, bit_and-one n, bit_xor-one n, ==→eq _ 0 t) in
        rw t (ap₂ (hash_node sha (n / 2)) (ap h left) (ap h right))
    | inr t ↦
        let right : n ≡ n / 2 * 2 + 1 = omega (arith, bit_and-one n, ==→ne _ 0 t) in
        let left : bit_xor n 1 ≡ n / 2 * 2 =
          ground (arith, bit_and-one n, bit_xor-one n, ==→ne _ 0 t) in
        rw t (ap₂ (hash_node sha (n / 2)) (ap h left) (ap h right))
  ]

  length-parent_hash :
      (leaf_base : ℕ) (h : ℕ → Hash) (n : ℕ) → length (parent_hash sha leaf_base h n) ≡ 32
  unfolding parent_hash
  length-parent_hash leaf_base h n = length-hash_node sha (n / 2) _ _

  parent_holds :
      (leaf_base : ℕ) (h : ℕ → Hash) (n : ℕ)
      → Holds sha leaf_base h (n / 2)
      → parent_hash sha leaf_base h n ≡ h (n / 2)
  unfolding parent_hash
  parent_holds leaf_base h n holds = sym holds

  -- One request after another.
  Held-then :
      {A B : Type 0} {s : TieredMerklePageStore S (operations P)}
      {r : Result A × TieredMerklePageStore S (operations P)} {a : A} {b : B} {h h' : ℕ → Hash}
      (f : A → M (TieredMerklePageStore S (operations P)) B) (one : Held sha S P s r a h)
      → Held sha S P
          (record s { hash_store = one.hash_store; trusted_hashes = one.trusted_hashes })
          (f a (record s { hash_store = one.hash_store; trusted_hashes = one.trusted_hashes }))
          b
          h'
      → Held sha S P s (continue f r) b h'
  Held-then f one rest = record {
    hash_store = rest.hash_store;
    trusted_hashes = rest.trusted_hashes;
    result_is = ap (continue f) one.result_is ∙ rest.result_is;
    room = rest.room;
    hashes_are = rest.hashes_are;
  }

  -- The hash read where the hashes are `h`, and the hash written there.
  read_as :
      (s : TieredMerklePageStore S (operations P)) (h : ℕ → Hash) (n : ℕ)
      → HasRoom sha S P s
      → hash_at sha S P s ≡ h
      → 0 < n
      → n < s.leaf_base * 2
      → Held sha S P s (read_hash sha S (operations P) n s) (h n) h
  read_as s h n v e pos lt =
      subst (λ f. Held sha S P s (read_hash sha S (operations P) n s) (f n) f) e
        (read_hash_lem sha S P s v n pos lt)

  write_as :
      (s : TieredMerklePageStore S (operations P)) (h : ℕ → Hash) (n : ℕ) (x : Hash)
      → HasRoom sha S P s
      → hash_at sha S P s ≡ h
      → 0 < n
      → n < s.leaf_base * 2
      → length x ≡ 32
      → Held sha S P s (write_hash sha S (operations P) n x s) tt (update h n x)
  write_as s h n x v e pos lt sized =
      subst (λ f. Held sha S P s (write_hash sha S (operations P) n x s) tt (update f n x)) e
        (write_hash_lem sha S P s v n x pos lt sized)

  update_up_lem :
      (fuel n : ℕ) (current : Hash) (s : TieredMerklePageStore S (operations P)) (h : ℕ → Hash)
      → HasRoom sha S P s
      → hash_at sha S P s ≡ h
      → current ≡ h n
      → n < fuel
      → n < s.leaf_base * 2
      → Held sha S P s
          (update_up sha S (operations P) fuel n current s)
          tt
          (rehash_up sha s.leaf_base fuel n h)
  unfolding update_up rehash_up
  update_up_lem zero n current s h v e c enough lt = absurd (omega arith)
  update_up_lem (suc fuel) n current s h v e c enough lt = elim (Bool-cases (ltb 1 n)) [
    | inr t ↦ rw t (record {
      hash_store = s.hash_store;
      trusted_hashes = s.trusted_hashes;
      result_is = refl;
      room = v;
      hashes_are = e;
    })
    | inl t ↦
        let (pos, in_tree) = sibling_in_tree s.leaf_base n (ltb→lt 1 n t) lt in
        let x : Hash = hash_parent sha S (operations P) n current (h (sibling_node n)) in
        let x_is : x ≡ parent_hash sha s.leaf_base h n =
          ap (λ y. hash_parent sha S (operations P) n y (h (sibling_node n))) c
          ∙ hash_parent_lem s.leaf_base h n in
        let one = read_as s h (sibling_node n) v e pos in_tree in
        let up : 0 < n / 2 = omega (arith, ltb→lt 1 n t) in
        let two =
          write_as (record s { hash_store = one.hash_store; trusted_hashes = one.trusted_hashes }) h
            (n / 2) x one.room one.hashes_are up (omega arith)
            (ap length x_is ∙ length-parent_hash s.leaf_base h n) in
        rw t (
          Held-then _ one (
            Held-then _ two (
              update_up_lem fuel (n / 2) x
                (record s { hash_store = two.hash_store; trusted_hashes = two.trusted_hashes })
                (update h (n / 2) (parent_hash sha s.leaf_base h n)) two.room
                (two.hashes_are ∙ ap (update h (n / 2)) x_is) (x_is ∙ sym (update_self h (n / 2) _))
                (omega (arith, ltb→lt 1 n t)) (omega arith))))
  ]

  -- The climb ends at a trusted node, with the hash of that node.
  record Climbed (s : TieredMerklePageStore S (operations P)) (h : ℕ → Hash)
      (r : Result (ℕ × Hash) × TieredMerklePageStore S (operations P)) : Type 0 where
    top : ℕ
    below : top < s.trusted_node_limit
    held : Held sha S P s r (top, h top) h

  climb_lem :
      (fuel n : ℕ) (current : Hash) (s : TieredMerklePageStore S (operations P)) (h : ℕ → Hash)
      → HasRoom sha S P s
      → hash_at sha S P s ≡ h
      → current ≡ h n
      → ((m : ℕ) → 0 < m → m < s.leaf_base → Holds sha s.leaf_base h m)
      → n < fuel
      → n < s.leaf_base * 2
      → 1 < s.trusted_node_limit
      → Climbed s h (climb sha S (operations P) fuel n current s)
  unfolding climb
  climb_lem zero n current s h v e c holds enough lt root = absurd (omega arith)
  climb_lem (suc fuel) n current s h v e c holds enough lt root =
      elim (Bool-cases (leb s.trusted_node_limit n)) [
        | inr t ↦ rw t (record {
          top = n;
          below = ltb_of_leb n s.trusted_node_limit t;
          held = record {
            hash_store = s.hash_store;
            trusted_hashes = s.trusted_hashes;
            result_is = ap (λ x. (ok (n, x), s)) c;
            room = v;
            hashes_are = e;
          };
        })
        | inl t ↦
            let high : 1 < n = omega (arith, leb→le _ _ t, root) in
            let (pos, in_tree) = sibling_in_tree s.leaf_base n high lt in
            let x : Hash = hash_parent sha S (operations P) n current (h (sibling_node n)) in
            let x_is : x ≡ parent_hash sha s.leaf_base h n =
              ap (λ y. hash_parent sha S (operations P) n y (h (sibling_node n))) c
              ∙ hash_parent_lem s.leaf_base h n in
            let one = read_as s h (sibling_node n) v e pos in_tree in
            let up =
              climb_lem fuel (n / 2) x
                (record s { hash_store = one.hash_store; trusted_hashes = one.trusted_hashes }) h
                one.room one.hashes_are
                (x_is
                  ∙ parent_holds s.leaf_base h n
                      (holds (n / 2) (omega (arith, high)) (omega (arith, lt))))
                holds (omega (arith, high)) (omega arith) root in
            rw t (record { top = up.top; below = up.below; held = Held-then _ one up.held })
      ]

  module _ (s : TieredMerklePageStore S (operations P)) (h : ℕ → Hash) (v : HasRoom sha S P s)
      (e : hash_at sha S P s ≡ h) (i : ℕ) (lt : i < s.leaf_base) where
    pub verify_page_hash_lem :
        ((m : ℕ) → 0 < m → m < s.leaf_base → Holds sha s.leaf_base h m)
        → 1 < s.trusted_node_limit
        → Held sha S P s (verify_page_hash sha S (operations P) i (h (s.leaf_base + i)) s) tt h
    unfolding verify_page_hash
    verify_page_hash_lem holds root =
        let c =
          climb_lem (suc (s.leaf_base + i)) (s.leaf_base + i) (h (s.leaf_base + i)) s h v e refl
            holds (omega arith) (omega arith) root in
        let t : ℕ = c.top in
        let found : index c.held.trusted_hashes t ≡ ok (h t) =
          index_ok c.held.trusted_hashes t (omega (arith, c.held.room.trusted_len, c.below))
          ∙ ap ok (
              sym (
                hash_of_trusted s.trusted_node_limit s.hashes_per_page c.held.trusted_hashes _ t
                  c.below)
              ∙ ap (λ f. f t) c.held.hashes_are) in
        Held-then _ c.held (record {
          hash_store = c.held.hash_store;
          trusted_hashes = c.held.trusted_hashes;
          result_is = rw (found, hash_eq_self (h t)) refl;
          room = c.held.room;
          hashes_are = c.held.hashes_are;
        })

    pub update_page_hash_lem :
        (x : Hash)
        → length x ≡ 32
        → Held sha S P s (update_page_hash sha S (operations P) i x s) tt (
            rehash_up sha s.leaf_base
              (suc (s.leaf_base + i))
              (s.leaf_base + i)
              (update h (s.leaf_base + i) x))
    unfolding update_page_hash
    update_page_hash_lem x sized =
        let one =
          write_as s h (s.leaf_base + i) x v e (omega (arith, lt)) (omega (arith, lt)) sized in
        Held-then _ one (
          update_up_lem (suc (s.leaf_base + i)) (s.leaf_base + i) x
            (record s { hash_store = one.hash_store; trusted_hashes = one.trusted_hashes })
            (update h (s.leaf_base + i) x) one.room one.hashes_are
            (sym (update_self h (s.leaf_base + i) x)) (omega arith) (omega (arith, lt)))
