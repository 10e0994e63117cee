-- ===== src/Evict/Offers.antt =====
-- src/circuit.rs, `plan_eviction_placements`: what one slot takes of the candidates. The scan runs over
-- all of them, without branches; at most one is taken, an active one that is still free and whose
-- leaf is under the node.
use oram.Base.{
  subst, ap, ==→eq, eq→==, ℕ, zero, suc, ◌+◌, ◌^◌, ◌<◌, ◌≡◌, refl, sym, ◌∙◌, Bool, true, false,
  ◌&&◌, bit, ◌==◌, List, [], ◌∷◌, length, get_elem?, some, Bool-cases, &&-eq-true, inl, inr, arith,
  not as bool_not,
}
use oram.Ct.{Subtle, choice_from_bool, and, or, eq_usize, cmov_usize}
use oram.Ct
use oram.Ct.Laws.{holds, holds-and, holds-or, holds-not, cmov_usize_lem}
use oram.Params.{OramParams, height}
use oram.Params.Geometry.{IsTree}
use oram.Evict.Under.{node_over, holds-node_contains_leaf}
use oram.Evict.{CircuitEvictionCandidate, Offer, offer, node_contains_leaf_choice}

module _ (S : Subtle) where
  open S use {Choice}

  -- Whether candidate `j` is taken.
  abbrev pub is_selected : List Choice → ℕ → Bool
  is_selected [] j = false
  is_selected (sel ∷ selected) zero = holds S sel
  is_selected (sel ∷ selected) (suc j) = is_selected selected j

module _ (S : Subtle) (p : OramParams) (depth node_idx : ℕ) where
  open S use {Choice}

  -- An active candidate whose leaf is under the node.
  pub record Fits (candidate : CircuitEvictionCandidate S) : Type 0 where
    pub active : holds S candidate.active ≡ true
    pub under : node_over p depth candidate.meta.leaf ≡ node_idx

  -- What a slot that is full leaves alone.
  record Passed (selected : List Choice) (idx : ℕ) (o : Offer S) : Type 0 where
    still : holds S o.placed ≡ true
    idx_is : o.placement_idx ≡ idx
    same : (j : ℕ) → is_selected S o.selected j ≡ is_selected S selected j

  -- What an empty slot takes: nothing, or one candidate that fits and was free.
  pub record Offered (start : ℕ) (candidates : List (CircuitEvictionCandidate S))
      (selected : List Choice) (o : Offer S) : Type 0 where
    pub counts :
        (j : ℕ)
        → bit (is_selected S o.selected j)
          ≡ bit (is_selected S selected j)
            + bit (holds S o.placed && (o.placement_idx == start + j))
    pub fits :
        holds S o.placed ≡ true
        → (j : ℕ) × (c : CircuitEvictionCandidate S) × (o.placement_idx ≡ start + j)
          × (get_elem? candidates j ≡ some c)
          × Fits c
    -- A slot stays empty only if no candidate fits that is free.
    pub missed :
        holds S o.placed ≡ false
        → (j : ℕ) (c : CircuitEvictionCandidate S) → get_elem? candidates j ≡ some c
        → is_selected S o.selected j ≡ false
        → ¬ Fits c

  same_all :
      (sel can : Choice) (selected after : List Choice)
      → holds S can ≡ false
      → ((j : ℕ) → is_selected S after j ≡ is_selected S selected j)
      → (j : ℕ) → is_selected S (or S sel can ∷ after) j ≡ is_selected S (sel ∷ selected) j
  same_all sel can selected after not_now same zero = ground (arith, holds-or S sel can, not_now)
  same_all sel can selected after not_now same (suc j) = same j

  -- The test that the scan makes of one candidate.
  can_place : CircuitEvictionCandidate S → Choice → Choice → Choice
  can_place c sel placed =
      and S (and S c.active (Ct.not S sel))
        (and S (Ct.not S placed) (node_contains_leaf_choice S p depth node_idx c.meta.leaf))

  holds-can_place :
      (c : CircuitEvictionCandidate S) (sel placed : Choice)
      → holds S (can_place c sel placed) ≡ (
          (holds S c.active && bool_not (holds S sel))
          && (bool_not (holds S placed)
              && holds S (node_contains_leaf_choice S p depth node_idx c.meta.leaf)))
  unfolding can_place
  holds-can_place c sel placed = simp (holds-and, holds-not) refl

  taken :
      (c : CircuitEvictionCandidate S) (sel placed : Choice)
      → IsTree p
      → depth < height p
      → holds S (can_place c sel placed) ≡ true
      → (holds S sel ≡ false) × Fits c
  taken c sel placed t within h =
      let all = sym (holds-can_place c sel placed) ∙ h in
      let (free, under) = &&-eq-true (holds S c.active && bool_not (holds S sel)) _ all in
      let (active, unselected) = &&-eq-true (holds S c.active) (bool_not (holds S sel)) free in
      (
        ground (arith, unselected),
        record {
          active = active;
          under = ==→eq _ _ (
              sym (holds-node_contains_leaf S depth node_idx c.meta.leaf t within)
              ∙ (&&-eq-true (bool_not (holds S placed)) _ under).1);
        },
      )

  -- A free candidate that fits is not refused.
  not_refused :
      (c : CircuitEvictionCandidate S) (sel placed : Choice)
      → IsTree p
      → depth < height p
      → holds S placed ≡ false
      → holds S sel ≡ false
      → Fits c
      → holds S (can_place c sel placed) ≡ true
  not_refused c sel placed t within open_slot free fit =
      let under =
        holds-node_contains_leaf S depth node_idx c.meta.leaf t within ∙ eq→== _ _ fit.under in
      holds-can_place c sel placed ∙ rw (fit.active, free, open_slot, under) refl

  pub length-offer :
      (start : ℕ) (candidates : List (CircuitEvictionCandidate S)) (selected : List Choice)
      (placed : Choice) (idx : ℕ)
      → length candidates ≡ length selected
      → length candidates
        ≡ length (Offer.selected (offer S p depth node_idx start candidates selected placed idx))
  unfolding offer
  length-offer start [] [] placed idx e = refl
  length-offer start [] (sel ∷ selected) placed idx e = absurd (omega (arith, e))
  length-offer start (c ∷ cs) [] placed idx e = absurd (omega (arith, e))
  length-offer start (c ∷ cs) (sel ∷ selected) placed idx e =
      ap suc (length-offer (suc start) cs selected _ _ (omega (arith, e)))

  count_taken :
      (start : ℕ) (sel can : Choice) (selected after : List Choice) (placed : Choice) (idx : ℕ)
      → holds S sel ≡ false
      → holds S can ≡ true
      → holds S placed ≡ true
      → idx ≡ start
      → ((j : ℕ) → is_selected S after j ≡ is_selected S selected j)
      → (j : ℕ)
      → bit (is_selected S (or S sel can ∷ after) j)
        ≡ bit (is_selected S (sel ∷ selected) j) + bit (holds S placed && (idx == start + j))
  count_taken start sel can selected after placed idx was_free now full e same zero =
      ground (arith, holds-or S sel can, was_free, now, full, e)
  count_taken start sel can selected after placed idx was_free now full e same (suc j) =
      ground (arith, same j, e)

  count_passed :
      (start : ℕ) (sel can : Choice) (selected after : List Choice) (placed : Choice) (idx : ℕ)
      → holds S can ≡ false
      → ((j : ℕ)
          → bit (is_selected S after j)
            ≡ bit (is_selected S selected j) + bit (holds S placed && (idx == suc start + j)))
      → (holds S placed ≡ true → start < idx)
      → (j : ℕ)
      → bit (is_selected S (or S sel can ∷ after) j)
        ≡ bit (is_selected S (sel ∷ selected) j) + bit (holds S placed && (idx == start + j))
  count_passed start sel can selected after placed idx not_now counts later zero =
      elim (Bool-cases (holds S placed)) [
        | inl t ↦ ground (arith, holds-or S sel can, not_now, t, later t)
        | inr t ↦ ground (arith, holds-or S sel can, not_now, t)
      ]
  count_passed start sel can selected after placed idx not_now counts later (suc j) =
      let e : suc start + j ≡ start + suc j = omega arith in rw (← e) (counts j)

  offer_full :
      (start : ℕ) (candidates : List (CircuitEvictionCandidate S)) (selected : List Choice)
      (placed : Choice) (idx : ℕ)
      → start + length candidates < 2 ^ 64
      → idx < 2 ^ 64
      → holds S placed ≡ true
      → Passed selected idx (offer S p depth node_idx start candidates selected placed idx)
  unfolding offer can_place
  offer_full start [] selected placed idx room small h = record {
    still = h;
    idx_is = refl;
    same = λ j. refl;
  }
  offer_full start (c ∷ cs) [] placed idx room small h = record {
    still = h;
    idx_is = refl;
    same = λ j. refl;
  }
  offer_full start (c ∷ cs) (sel ∷ selected) placed idx room small h =
      let can : Choice = can_place c sel placed in
      let no : holds S can ≡ false = ground (arith, holds-can_place c sel placed, h) in
      let kept : cmov_usize S idx start can ≡ idx =
        cmov_usize_lem S idx start can small (omega (arith, room)) ∙ rw no refl in
      let rest =
        offer_full (suc start) cs selected (or S placed can) (cmov_usize S idx start can)
          (omega (arith, room)) (rw kept small) (ground (arith, holds-or S placed can, h)) in
      record {
        still = rest.still;
        idx_is = rest.idx_is ∙ kept;
        same = same_all sel can selected _ no rest.same;
      }

  -- Neither the candidate at hand nor a later one was missed.
  missed_here :
      (c : CircuitEvictionCandidate S) (sel placed : Choice)
      (cs : List (CircuitEvictionCandidate S)) (after : List Choice)
      → IsTree p
      → depth < height p
      → holds S (can_place c sel placed) ≡ false
      → holds S placed ≡ false
      → ((j : ℕ) (d : CircuitEvictionCandidate S)
          → get_elem? cs j ≡ some d
          → is_selected S after j ≡ false
          → ¬ Fits d)
      → (j : ℕ) (d : CircuitEvictionCandidate S) → get_elem? (c ∷ cs) j ≡ some d
      → is_selected S (or S sel (can_place c sel placed) ∷ after) j ≡ false
      → ¬ Fits d
  missed_here c sel placed cs after tree within refused open_slot later zero d there free fit =
      let same : c ≡ d = ground (arith, there) in
      let unselected : holds S sel ≡ false =
        ground (arith, free, holds-or S sel (can_place c sel placed)) in
      let taken_now =
        not_refused c sel placed tree within open_slot unselected (subst Fits (sym same) fit) in
      absurd (ground (arith, refused, taken_now))
  missed_here c sel placed cs after tree within refused open_slot later (suc j) d there free fit =
      later j d there free fit

  pub offer_lem :
      (start : ℕ) (candidates : List (CircuitEvictionCandidate S)) (selected : List Choice)
      (placed : Choice) (idx : ℕ)
      → IsTree p
      → depth < height p
      → length candidates ≡ length selected
      → start + length candidates < 2 ^ 64
      → idx < 2 ^ 64
      → holds S placed ≡ false
      → Offered start candidates selected
          (offer S p depth node_idx start candidates selected placed idx)
  unfolding offer can_place
  offer_lem start [] selected placed idx tree within same room small h = record {
    counts = λ j. ground (arith, h);
    fits = λ t. absurd (ground (arith, h, t));
    missed = λ u j c there free fit. absurd (ground (arith, there));
  }
  offer_lem start (c ∷ cs) [] placed idx tree within same room small h =
      absurd (omega (arith, same))
  offer_lem start (c ∷ cs) (sel ∷ selected) placed idx tree within same room small h =
      let can : Choice = can_place c sel placed in
      elim (Bool-cases (holds S can)) [
        | inl t ↦
            let (was_free, fit) = taken c sel placed tree within t in
            let idx_is : cmov_usize S idx start can ≡ start =
              cmov_usize_lem S idx start can small (omega (arith, room)) ∙ rw t refl in
            let rest =
              offer_full (suc start) cs selected (or S placed can) (cmov_usize S idx start can)
                (omega (arith, room)) (rw idx_is (omega (arith, room)))
                (ground (arith, holds-or S placed can, t)) in
            record {
              counts =
                  count_taken start sel can selected _ _ _ was_free t rest.still
                    (rest.idx_is ∙ idx_is) rest.same;
              fits = λ _. (zero, c, rest.idx_is ∙ (idx_is ∙ omega arith), refl, fit);
              missed = λ u j c' there free fit'. absurd (ground (arith, rest.still, u));
            }
        | inr t ↦
            let idx_is : cmov_usize S idx start can ≡ idx =
              cmov_usize_lem S idx start can small (omega (arith, room)) ∙ rw t refl in
            let rest =
              offer_lem (suc start) cs selected (or S placed can) (cmov_usize S idx start can) tree
                within (omega (arith, same)) (omega (arith, room)) (rw idx_is small)
                (ground (arith, holds-or S placed can, t, h)) in
            record {
              counts =
                  count_passed start sel can selected _ _ _ t rest.counts
                    (λ u. let (j, d, at, _, _) = rest.fits u in omega (arith, at));
              fits = λ u.
                  let (j, d, at, there, fit) = rest.fits u in
                  (suc j, d, at ∙ omega arith, there, fit);
              missed = λ u. missed_here c sel placed cs _ tree within t h (rest.missed u);
            }
      ]
