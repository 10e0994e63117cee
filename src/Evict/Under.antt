-- ===== src/Evict/Under.antt =====
-- src/circuit.rs, `node_contains_leaf_choice`: which leaves are under a node, as arithmetic.
use native.Mathlib.Nat.{mod-lt, mod-eq_of_lt}
use oram.Base.{ℕ, ◌+◌, ◌-◌, ◌/◌, ◌%◌, ◌^◌, ◌<◌, ◌≡◌, sym, ap, ◌∙◌, ◌==◌, bit_and, arith}
use oram.Base.Bits.{bit_and-mask}
use oram.Ct.{Subtle}
use oram.Ct.Laws.{holds, holds-eq_usize}
use oram.Params.{OramParams, leaf_bits, height, node_index}
use oram.Params.Geometry.{IsTree, node_index_lem, prefix-lt}
use oram.Evict.{node_contains_leaf_choice}

-- The heap index of the node at `depth` over a leaf: its first bits, as many as the depth, behind
-- the 2 ^ depth - 1 nodes that are higher up.
abbrev pub node_over : OramParams → ℕ → ℕ → ℕ
node_over p depth leaf = 2 ^ depth - 1 + leaf % p.leaves / 2 ^ (leaf_bits p - depth)

masked :
    {p : OramParams} (leaf : ℕ) → IsTree p → bit_and leaf (p.leaves - 1) % 2 ^ 32 ≡ leaf % p.leaves
masked {p} leaf t =
    let mask : bit_and leaf (p.leaves - 1) ≡ leaf % p.leaves =
      ap (λ n. bit_and leaf (n - 1)) t.leaves_pow
      ∙ (bit_and-mask (leaf_bits p) leaf ∙ ap (λ n. leaf % n) (sym t.leaves_pow)) in
    let below : leaf % p.leaves < p.leaves = mod-lt leaf (omega (arith, t.two_le_leaves)) in
    rw mask (mod-eq_of_lt (omega (arith, below, t.leaves_fit)))

node_index-over :
    {p : OramParams} (depth leaf : ℕ)
    → IsTree p
    → depth < height p
    → node_index p depth (leaf % p.leaves) ≡ node_over p depth leaf
unfolding height
node_index-over {p} depth leaf t within =
    let below : leaf % p.leaves < p.leaves = mod-lt leaf (omega (arith, t.two_le_leaves)) in
    node_index_lem depth (leaf % p.leaves) t within
    ∙ ap (λ n. 2 ^ depth - 1 + n)
        (mod-eq_of_lt (prefix-lt depth (leaf % p.leaves) t (omega (arith, within)) below))

pub holds-node_contains_leaf :
    (S : Subtle) {p : OramParams} (depth node_idx leaf : ℕ)
    → IsTree p
    → depth < height p
    → holds S (node_contains_leaf_choice S p depth node_idx leaf)
      ≡ (node_over p depth leaf == node_idx)
unfolding node_contains_leaf_choice
holds-node_contains_leaf S {p} depth node_idx leaf t within =
    holds-eq_usize S (node_index p depth (bit_and leaf (p.leaves - 1) % 2 ^ 32)) node_idx
    ∙ ap (λ n. n == node_idx)
        (ap (node_index p depth) (masked leaf t) ∙ node_index-over depth leaf t within)
