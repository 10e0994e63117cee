-- ===== src/Store/Mem/Slices.antt =====
-- A copy into one page of a buffer of pages.
use mathlib.Core.List.{append_assoc}
use oram.Base.{
  ℕ, zero, suc, ◌+◌, ◌*◌, ◌≤◌, ◌≡◌, refl, sym, ap, ap₂, ◌∙◌, List, [], ◌∷◌, ◌++◌, length,
  length-append, length-take, length-drop, take, drop, take-append, drop-append, ◌==◌,
  if◌then◌else◌, arith, ne→==,
}
use oram.Base.Bytes.{slice, splice, drop-drop}

take-nil : (n : ℕ) → take {A = ℕ} n [] ≡ []
take-nil zero = refl
take-nil (suc n) = refl

take-more : (m n : ℕ) (xs : List ℕ) → take (m + n) xs ≡ take m xs ++ take n (drop m xs)
take-more zero n xs = let e : zero + n ≡ n = omega arith in ap (λ k. take k xs) e
take-more (suc m) n [] =
    let e : suc (m + n) ≡ suc m + n = omega arith in ap (λ k. take k []) (sym e) ∙ sym (take-nil n)
take-more (suc m) n (x ∷ xs) =
    let e : suc (m + n) ≡ suc m + n = omega arith in
    ap (λ k. take k (x ∷ xs)) (sym e) ∙ ap (◌∷◌ x) (take-more m n xs)

pub length-splice :
    (start : ℕ) (part xs : List ℕ)
    → start + length part ≤ length xs
    → length (splice start part xs) ≡ length xs
length-splice start part xs h = omega (
  arith,
  length-append (take start xs) (part ++ drop (start + length part) xs),
  length-append part (drop (start + length part) xs),
  length-take start xs,
  length-drop (start + length part) xs,
)

-- Past its first `n` items a splice is a splice of the rest.
splice-skip :
    (n start : ℕ) (part xs : List ℕ)
    → splice (n + start) part xs ≡ take n xs ++ splice start part (drop n xs)
splice-skip n start part xs =
    let e : n + start + length part ≡ n + (start + length part) = omega arith in
    ap₂ ◌++◌ (take-more n start xs)
      (ap (λ k. part ++ drop k xs) e ∙ ap (◌++◌ part) (sym (drop-drop n (start + length part) xs)))
    ∙ append_assoc (take n xs) (take start (drop n xs)) _

module _ (n : ℕ) (part : List ℕ) (e : length part ≡ n) where
  suc-mul : (k : ℕ) → suc k * n ≡ n + k * n
  suc-mul k = omega arith

  -- The first page after a copy into it, and the rest.
  splice-front : (xs : List ℕ) → splice (0 * n) part xs ≡ part ++ drop n xs
  splice-front xs =
      let z : 0 * n ≡ 0 = omega arith in
      let k : 0 + length part ≡ n = omega (arith, e) in
      ap (λ m. splice m part xs) z ∙ ap (λ m. part ++ drop m xs) k

  splice-back :
      (i : ℕ) (xs : List ℕ)
      → splice (suc i * n) part xs ≡ take n xs ++ splice (i * n) part (drop n xs)
  splice-back i xs = ap (λ m. splice m part xs) (suc-mul i) ∙ splice-skip n (i * n) part xs

  slice-front : (xs : List ℕ) → slice (0 * n) n xs ≡ take n xs
  slice-front xs = let z : 0 * n ≡ 0 = omega arith in ap (λ m. slice m n xs) z

  slice-back : (j : ℕ) (xs : List ℕ) → slice (suc j * n) n xs ≡ slice (j * n) n (drop n xs)
  slice-back j xs = ap (λ m. slice m n xs) (suc-mul j) ∙ ap (take n) (sym (drop-drop n (j * n) xs))

  -- A copy into page `i` changes that page alone.
  pub slice-splice :
      (i j : ℕ) (xs : List ℕ)
      → suc i * n ≤ length xs
      → slice (j * n) n (splice (i * n) part xs) ≡ (if i == j then part else slice (j * n) n xs)
  slice-splice zero zero xs h =
      slice-front (splice (0 * n) part xs)
      ∙ (ap (take n) (splice-front xs) ∙ take-append n part (drop n xs) e)
  slice-splice zero (suc j) xs h = rw (ne→== 0 (suc j) (omega arith)) (
      slice-back j (splice (0 * n) part xs)
      ∙ (ap (λ ys. slice (j * n) n (drop n ys)) (splice-front xs)
          ∙ (ap (slice (j * n) n) (drop-append n part (drop n xs) e) ∙ sym (slice-back j xs))))
  slice-splice (suc i) zero xs h = rw (ne→== (suc i) 0 (omega arith)) (
      slice-front (splice (suc i * n) part xs)
      ∙ (ap (take n) (splice-back i xs)
          ∙ (take-append n (take n xs) _ (omega (arith, length-take n xs, suc-mul (suc i)))
              ∙ sym (slice-front xs))))
  slice-splice (suc i) (suc j) xs h =
      let shorter : length (take n xs) ≡ n = omega (arith, length-take n xs, suc-mul (suc i)) in
      let same : (suc i == suc j) ≡ (i == j) = ground arith in
      rw same (
        slice-back j (splice (suc i * n) part xs)
        ∙ (ap (λ ys. slice (j * n) n (drop n ys)) (splice-back i xs)
            ∙ (ap (slice (j * n) n) (drop-append n (take n xs) _ shorter)
                ∙ (slice-splice i j (drop n xs) (omega (arith, length-drop n xs, suc-mul (suc i)))
                    ∙ ap (λ ys. if i == j then part else ys) (sym (slice-back j xs))))))
