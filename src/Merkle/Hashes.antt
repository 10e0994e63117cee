-- ===== src/Merkle/Hashes.antt =====
-- src/merkle.rs: what the hashes commit to. Two different byte strings with one digest are a
-- collision; whatever a hash stands for is the only thing it stands for, or there is one.
use mathlib.Core.List.{List-discrete}
use native.Mathlib.Decide.{ℕ_discrete}
use oram.Base.{
  ℕ, ◌≡◌, ◌≢◌, refl, sym, ap, ap₂, ◌∙◌, ◌⊎◌, inl, inr, Bool, true, not, List, [], ◌∷◌, ◌++◌, length,
  drop, take, drop-append, take-append, ==→eq, eq→==, ne→==, ◌<◌, ◌≤◌, ◌^◌, arith, bit_xor,
}
use Prim.Native.Nat.{bit_or}
use oram.Base.Bits.Zero.{bit_or_zero, bit_xor_zero, bit_xor_self, zero-bit_or}
use oram.Base.Bytes.{to_le_bytes, length-to_le_bytes}
use oram.Outcome.{Error, ok, reject_if}
use oram.Base.Powers.{checked_next_power_of_two-some}
use oram.Merkle.{
  leaf_base_for_page_count, Hash, Sha256, hash_leaf, hash_empty_leaf, hash_node, hash_eq,
  differences, leaf_domain, node_domain,
}

-- Two byte strings that the hash function does not tell apart.
pub record Collision (sha : Sha256) : Type 0 where
  pub first : List ℕ
  pub second : List ℕ
  pub differ : first ≢ second
  pub same : sha.digest first ≡ sha.digest second

differences-zero :
    (diff : ℕ) (lhs rhs : Hash)
    → length lhs ≡ length rhs
    → differences diff lhs rhs ≡ 0
    → (diff ≡ 0) × (lhs ≡ rhs)
unfolding differences
differences-zero diff [] [] e h = (h, refl)
differences-zero diff [] (r ∷ rhs) e h = absurd (omega arith)
differences-zero diff (l ∷ lhs) [] e h = absurd (omega arith)
differences-zero diff (l ∷ lhs) (r ∷ rhs) e h =
    let (here, rest) = differences-zero (bit_or diff (bit_xor l r)) lhs rhs (omega arith) h in
    let (before, now) = bit_or_zero diff (bit_xor l r) here in
    (before, ap₂ ◌∷◌ (bit_xor_zero l r now) rest)

differences_self : (lhs : Hash) → differences 0 lhs lhs ≡ 0
unfolding differences
differences_self [] = refl
differences_self (l ∷ lhs) = rw (bit_xor_self l, zero-bit_or 0) (differences_self lhs)

-- The constant-time comparison of hashes tells their equality.
pub hash_eq→eq : (lhs rhs : Hash) → length lhs ≡ length rhs → hash_eq lhs rhs ≡ true → lhs ≡ rhs
unfolding hash_eq
hash_eq→eq lhs rhs e h = (differences-zero 0 lhs rhs e (==→eq _ 0 h)).1

pub hash_eq_self : (lhs : Hash) → hash_eq lhs lhs ≡ true
unfolding hash_eq
hash_eq_self lhs = eq→== _ 0 (differences_self lhs)

-- There is a leaf base for every page count up to the greatest power of two, the least that fits.
pub leaf_base_lem :
    (top count : ℕ)
    → top ≤ 63
    → 0 < count
    → count ≤ 2 ^ top
    → (k : ℕ) × (leaf_base_for_page_count count ≡ ok (2 ^ k)) × (count ≤ 2 ^ k) × (k ≤ top)
unfolding leaf_base_for_page_count
leaf_base_lem top count t pos few =
    let (k, is, room, small) = checked_next_power_of_two-some top count t few in
    (k, rw (ne→== count 0 (omega (arith, pos)), is) refl, room, small)

-- A check that lets one through.
pub passes : (b : Bool) (e : Error) {done : Unit {0}} → reject_if (not b) e ≡ ok done → b ≡ true
passes b e h = ground arith

module _ (sha : Sha256) where
  -- One digest, one byte string, or a collision.
  same_digest : (xs ys : List ℕ) → sha.digest xs ≡ sha.digest ys → (xs ≡ ys) ⊎ Collision sha
  same_digest xs ys e = elim (List-discrete ℕ_discrete xs ys) [
    | yes p ↦ inl p
    | no n ↦ inr (record { first = xs; second = ys; differ = n; same = e })
  ]

  pub length-hash_node : (n : ℕ) (l r : Hash) → length (hash_node sha n l r) ≡ 32
  unfolding hash_node
  length-hash_node n l r = sha.length-digest _

  pub length-hash_leaf :
      (id : List ℕ) (i : ℕ) (page : List ℕ) → length (hash_leaf sha id i page) ≡ 32
  unfolding hash_leaf
  length-hash_leaf id i page = sha.length-digest _

  pub length-hash_empty_leaf :
      (id : List ℕ) (i size : ℕ) → length (hash_empty_leaf sha id i size) ≡ 32
  unfolding hash_empty_leaf
  length-hash_empty_leaf id i size = sha.length-digest _

  append_left : (xs ys zs : List ℕ) → xs ++ ys ≡ xs ++ zs → ys ≡ zs
  append_left xs ys zs e =
      sym (drop-append (length xs) xs ys refl)
      ∙ (ap (drop (length xs)) e ∙ drop-append (length xs) xs zs refl)

  -- A leaf hash stands for one page.
  pub hash_leaf_page :
      (id : List ℕ) (i : ℕ) (page page' : List ℕ)
      → hash_leaf sha id i page ≡ hash_leaf sha id i page'
      → (page ≡ page') ⊎ Collision sha
  unfolding hash_leaf
  hash_leaf_page id i page page' e = elim (same_digest _ _ e) [
    | inr c ↦ inr c
    | inl p ↦
        let q =
          append_left (to_le_bytes 8 i) _ _ (append_left id _ _ (append_left leaf_domain _ _ p)) in
        inl (
          sym (drop-append 8 (to_le_bytes 8 (length page)) page (length-to_le_bytes 8 _))
          ∙ (ap (drop 8) q
              ∙ drop-append 8 (to_le_bytes 8 (length page')) page' (length-to_le_bytes 8 _)))
  ]

  -- A node hash stands for its two children.
  pub hash_node_children :
      (n : ℕ) (l r l' r' : Hash)
      → length l ≡ 32
      → length l' ≡ 32
      → hash_node sha n l r ≡ hash_node sha n l' r'
      → ((l ≡ l') × (r ≡ r')) ⊎ Collision sha
  unfolding hash_node
  hash_node_children n l r l' r' e e' h = elim (same_digest _ _ h) [
    | inr c ↦ inr c
    | inl p ↦
        let q = append_left (to_le_bytes 8 n) _ _ (append_left node_domain _ _ p) in
        inl (
          sym (take-append 32 l r e) ∙ (ap (take 32) q ∙ take-append 32 l' r' e'),
          sym (drop-append 32 l r e) ∙ (ap (drop 32) q ∙ drop-append 32 l' r' e'),
        )
  ]
