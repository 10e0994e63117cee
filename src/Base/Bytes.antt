-- ===== src/Base/Bytes.antt =====
-- Byte strings: little-endian words, slices, and chunks, as Rust's standard library has them.
use native.Mathlib.Nat.{mul-div_cancel, pow-succ'}
use Prim.Native.Nat.{ℕ, zero, suc, ◌+◌, ◌-◌, ◌*◌, ◌/◌, ◌%◌, ◌^◌, ◌≤◌, ◌<◌}
use mathlib.Core.Path.{◌≡◌, refl, ap, ap₂, ◌∙◌, sym}
use mathlib.Core.List.{List, [], ◌∷◌, ◌++◌, append_assoc}
use native.Mathlib.Omega.{arith}
use oram.Base.Lists.{
  length, take, drop, replicate, All, length-append, length-take, length-drop, take-append,
  drop-append, take-append-drop,
}

abbrev pub IsByte : ℕ → Type 0
IsByte b = b < 256

abbrev pub IsBytes : List ℕ → Type 0
IsBytes = All IsByte

-- `to_le_bytes` of a word of `w` bytes, and `from_le_bytes`.
unfoldable pub to_le_bytes : ℕ → ℕ → List ℕ
to_le_bytes zero x = []
to_le_bytes (suc w) x = x % 256 ∷ to_le_bytes w (x / 256)

unfoldable pub from_le_bytes : List ℕ → ℕ
from_le_bytes [] = 0
from_le_bytes (b ∷ bs) = b + 256 * from_le_bytes bs

pub length-to_le_bytes : (w x : ℕ) → length (to_le_bytes w x) ≡ w
unfolding to_le_bytes
length-to_le_bytes zero x = refl
length-to_le_bytes (suc w) x = ap suc (length-to_le_bytes w (x / 256))

pub to_le_bytes-IsBytes : (w x : ℕ) → IsBytes (to_le_bytes w x)
unfolding to_le_bytes
to_le_bytes-IsBytes zero x = tt
to_le_bytes-IsBytes (suc w) x = (omega arith, to_le_bytes-IsBytes w (x / 256))

-- A word that fits comes back.
pub from_le_bytes-to_le_bytes : (w x : ℕ) → x < 256 ^ w → from_le_bytes (to_le_bytes w x) ≡ x
unfolding to_le_bytes from_le_bytes
from_le_bytes-to_le_bytes zero x h = omega arith
from_le_bytes-to_le_bytes (suc w) x h =
    omega (arith, from_le_bytes-to_le_bytes w (x / 256) (omega (arith, pow-succ' 256 w)))

pub to_le_bytes-from_le_bytes :
    (bs : List ℕ) → IsBytes bs → to_le_bytes (length bs) (from_le_bytes bs) ≡ bs
unfolding to_le_bytes from_le_bytes
to_le_bytes-from_le_bytes [] h = refl
to_le_bytes-from_le_bytes (b ∷ bs) h =
    let x : ℕ = b + 256 * from_le_bytes bs in
    ap₂ ◌∷◌ (omega (arith, h.0))
      (ap (to_le_bytes (length bs)) (omega (arith, h.0)) ∙ to_le_bytes-from_le_bytes bs h.1)

pub from_le_bytes-lt : (bs : List ℕ) → IsBytes bs → from_le_bytes bs < 256 ^ length bs
unfolding from_le_bytes
from_le_bytes-lt [] h = omega arith
from_le_bytes-lt (b ∷ bs) h = omega (arith, h.0, from_le_bytes-lt bs h.1, pow-succ' 256 (length bs))

-- `xs[start..start + len]`
abbrev pub slice {ℓ} : {A : Type ℓ} → ℕ → ℕ → List A → List A
slice start len xs = take len (drop start xs)

-- `xs[start..start + len].copy_from_slice(part)`, where `len` is the length of `part`
abbrev pub splice {ℓ} : {A : Type ℓ} → ℕ → List A → List A → List A
splice start part xs = take start xs ++ (part ++ drop (start + length part) xs)

-- The first `count` chunks of `size` items.
unfoldable pub chunks {ℓ} : {A : Type ℓ} → ℕ → ℕ → List A → List (List A)
chunks zero size xs = []
chunks (suc count) size xs = take size xs ∷ chunks count size (drop size xs)

-- `chunks_exact`, for a size that is not 0
unfoldable pub chunks_exact {ℓ} : {A : Type ℓ} → ℕ → List A → List (List A)
unfolding chunks
chunks_exact size xs = chunks (length xs / size) size xs

-- Parts of one size, one after the other.
unfoldable pub concat {ℓ} : {A : Type ℓ} → List (List A) → List A
concat [] = []
concat (part ∷ parts) = part ++ concat parts

module _ {ℓ} {A : Type ℓ} (size : ℕ) where
  pub length-concat :
      (parts : List (List A))
      → All (λ p. length p ≡ size) parts
      → length (concat parts) ≡ length parts * size
  unfolding concat
  length-concat [] h = omega arith
  length-concat (p ∷ ps) h = omega (arith, length-append p (concat ps), h.0, length-concat ps h.1)

  chunks-concat :
      (parts : List (List A))
      → All (λ p. length p ≡ size) parts
      → chunks (length parts) size (concat parts) ≡ parts
  unfolding chunks concat
  chunks-concat [] h = refl
  chunks-concat (p ∷ ps) h =
      ap₂ ◌∷◌ (take-append size p (concat ps) h.0)
        (ap (chunks (length ps) size) (drop-append size p (concat ps) h.0) ∙ chunks-concat ps h.1)

  -- Parts that were put together are the chunks of the whole.
  pub chunks_exact-concat :
      (parts : List (List A))
      → 0 < size
      → All (λ p. length p ≡ size) parts
      → chunks_exact size (concat parts) ≡ parts
  unfolding chunks_exact
  chunks_exact-concat parts pos h =
      ap (λ n. chunks n size (concat parts))
        (ap (λ n. n / size) (length-concat parts h) ∙ mul-div_cancel (length parts) pos)
      ∙ chunks-concat parts h

  pub chunks-All :
      (n : ℕ) (xs : List A) → n * size ≤ length xs → All (λ p. length p ≡ size) (chunks n size xs)
  unfolding chunks
  chunks-All zero xs h = tt
  chunks-All (suc n) xs h = (
    omega (arith, length-take size xs),
    chunks-All n (drop size xs) (omega (arith, length-drop size xs)),
  )

  pub concat-chunks : (n : ℕ) (xs : List A) → length xs ≡ n * size → concat (chunks n size xs) ≡ xs
  unfolding chunks concat
  concat-chunks zero [] h = refl
  concat-chunks zero (x ∷ xs) h = absurd (omega arith)
  concat-chunks (suc n) xs h =
      ap (◌++◌ (take size xs)) (concat-chunks n (drop size xs) (omega (arith, length-drop size xs)))
      ∙ take-append-drop size xs

  pub length-chunks : (n : ℕ) (xs : List A) → length (chunks n size xs) ≡ n
  unfolding chunks
  length-chunks zero xs = refl
  length-chunks (suc n) xs = ap suc (length-chunks n (drop size xs))

pub drop-drop {ℓ} : {A : Type ℓ} (m n : ℕ) (xs : List A) → drop n (drop m xs) ≡ drop (m + n) xs
drop-drop zero n xs = let e : n ≡ zero + n = omega arith in ap (λ k. drop k xs) e
drop-drop (suc m) zero [] = let e : suc m ≡ suc m + 0 = omega arith in ap (λ k. drop k []) e
drop-drop (suc m) (suc n) [] =
    let e : suc (m + suc n) ≡ suc m + suc n = omega arith in ap (λ k. drop k []) e
drop-drop (suc m) n (x ∷ xs) =
    let e : suc (m + n) ≡ suc m + n = omega arith in drop-drop m n xs ∙ ap (λ k. drop k (x ∷ xs)) e

module _ {ℓ} {A : Type ℓ} (start : ℕ) (done todo : List A) (e : length done ≡ start) where
  pub slice-append : (n : ℕ) → slice start n (done ++ todo) ≡ take n todo
  slice-append n = ap (take n) (drop-append start done todo e)

  -- A copy at the end of what is done.
  pub splice-append :
      (part : List A) → splice start part (done ++ todo) ≡ (done ++ part) ++ drop (length part) todo
  splice-append part =
      ap₂ ◌++◌ (take-append start done todo e) (
        ap (◌++◌ part) (
          sym (drop-drop start (length part) (done ++ todo))
          ∙ ap (drop (length part)) (drop-append start done todo e)))
      ∙ sym (append_assoc done part (drop (length part) todo))

module _ {ℓ} {A : Type ℓ} where
  take-front : (m : ℕ) (xs ys : List A) → m ≤ length xs → take m (xs ++ ys) ≡ take m xs
  take-front zero xs ys h = refl
  take-front (suc m) [] ys h = absurd (omega arith)
  take-front (suc m) (x ∷ xs) ys h = ap (◌∷◌ x) (take-front m xs ys (omega arith))

  -- A slice of the first part.
  pub slice-front :
      (start len : ℕ) (xs ys : List A)
      → start + len ≤ length xs
      → slice start len (xs ++ ys) ≡ slice start len xs
  slice-front zero len xs ys h = take-front len xs ys (omega arith)
  slice-front (suc start) len [] ys h = absurd (omega arith)
  slice-front (suc start) len (x ∷ xs) ys h = slice-front start len xs ys (omega arith)

  take-take : (m k : ℕ) (xs : List A) → m ≤ k → take m (take k xs) ≡ take m xs
  take-take zero k xs h = refl
  take-take (suc m) zero xs h = absurd (omega arith)
  take-take (suc m) (suc k) [] h = refl
  take-take (suc m) (suc k) (x ∷ xs) h = ap (◌∷◌ x) (take-take m k xs (omega arith))

  -- A slice of a slice.
  pub slice-take :
      (start len k : ℕ) (xs : List A)
      → start + len ≤ k
      → slice start len (take k xs) ≡ slice start len xs
  slice-take zero len k xs h = take-take len k xs (omega arith)
  slice-take (suc start) zero zero xs h = absurd (omega arith)
  slice-take (suc start) (suc len) zero xs h = absurd (omega arith)
  slice-take (suc start) len (suc k) [] h = refl
  slice-take (suc start) len (suc k) (x ∷ xs) h = slice-take start len k xs (omega arith)

  pub drop-replicate : (n m : ℕ) (a : A) → drop n (replicate m a) ≡ replicate (m - n) a
  drop-replicate zero m a = let e : m ≡ m - 0 = omega arith in ap (λ k. replicate k a) e
  drop-replicate (suc n) zero a =
      let e : zero ≡ zero - suc n = omega arith in ap (λ k. replicate k a) e
  drop-replicate (suc n) (suc m) a =
      let e : m - n ≡ suc m - suc n = omega arith in
      drop-replicate n m a ∙ ap (λ k. replicate k a) e
