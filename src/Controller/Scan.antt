-- ===== src/Controller/Scan.antt =====
-- src/circuit.rs: what the loops of `access` over the stash compute.
use oram.Base.{
  ℕ, ◌≡◌, refl, sym, ap, ◌∙◌, true, ◌||◌, List, [], ◌∷◌, map, length, All, if◌then◌else◌, arith,
  Bool-cases, inl, inr,
}
use oram.Ct.{Subtle, or, cmov_bytes}
use oram.Ct.Laws.{holds, holds-or, cmov_bytes_lem, cmov_u32_lem}
use oram.Block.{OramBlock, logical_id_choice}
use oram.Block.Laws.{holds_id, logical_id_choice_lem}
use oram.Select.Laws.{has_id}
use oram.Controller.{scan_stash, relabel_stash}

-- The block of `id` with another payload and leaf; any other block as it is.
unfoldable pub relabel : ℕ → List ℕ → ℕ → OramBlock → OramBlock
relabel id payload leaf b = if holds_id b id then record b { payload = payload; leaf = leaf } else b

module _ (S : Subtle) where
  open S use {Choice}

  -- Where every block of `id` has the payload `x`, the scan finds it if there is such a block.
  pub scan_stash_lem :
      (id : ℕ) (x : List ℕ) (stash : List OramBlock) (output : List ℕ) (found : Choice)
      → All (λ b. (length b.payload ≡ length x)) stash
      → All (λ b. (holds_id b id ≡ true → b.payload ≡ x)) stash
      → length output ≡ length x
      → ((scan_stash S id stash output found).0 ≡ (if has_id id stash then x else output))
        × (holds S (scan_stash S id stash output found).1 ≡ (holds S found || has_id id stash))
  unfolding scan_stash has_id
  scan_stash_lem id x [] output found z h e = ground arith
  scan_stash_lem id x (b ∷ stash) output found z h e =
      let matched : Choice = logical_id_choice S b id in
      let next : List ℕ = cmov_bytes S output b.payload matched in
      let next_is : next ≡ (if holds_id b id then x else output) =
        cmov_bytes_lem S output b.payload matched (e ∙ sym z.0)
        ∙ (elim (Bool-cases (holds_id b id)) [
          | inl y ↦ rw (logical_id_choice_lem S b id) (rw y (h.0 y))
          | inr y ↦ rw (logical_id_choice_lem S b id) (rw y)
        ]) in
      let sized : length next ≡ length x = ap length next_is ∙ ground arith in
      ground (
        arith,
        next_is,
        logical_id_choice_lem S b id,
        holds-or S found matched,
        scan_stash_lem id x stash next (or S found matched) z.1 h.1 sized,
      )

  -- The relabelling changes the blocks of `id`, and no other.
  pub relabel_stash_lem :
      (id : ℕ) (payload : List ℕ) (leaf : ℕ) (stash : List OramBlock)
      → All (λ b. length b.payload ≡ length payload) stash
      → relabel_stash S id payload leaf stash ≡ map (relabel id payload leaf) stash
  unfolding relabel_stash relabel
  relabel_stash_lem id payload leaf [] z = refl
  relabel_stash_lem id payload leaf (b ∷ stash) z =
      let matched : Choice = logical_id_choice S b id in
      ground (
        arith,
        logical_id_choice_lem S b id,
        cmov_bytes_lem S b.payload payload matched z.0,
        cmov_u32_lem S b.leaf leaf matched,
        relabel_stash_lem id payload leaf stash z.1,
      )
