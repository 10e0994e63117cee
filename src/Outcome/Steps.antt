-- ===== src/Outcome/Steps.antt =====
-- What a computation that succeeded went through.
use oram.Base.{ℕ, zero, suc, ◌<◌, ◌≡◌, refl, sym, List, [], ◌∷◌, length, get_or, arith}
use oram.Outcome.{Result, ok, err, index, ◌>>=◌}

-- The first step gave `value`, and the rest went on from it.
pub record Steps {A B : Type 0} (r : Result B) (next : B → Result A) (a : A) : Type 0 where
  pub value : B
  pub first : r ≡ ok value
  pub rest : next value ≡ ok a

pub Steps-of :
    {A B : Type 0} (r : Result B) (next : B → Result A) {a : A}
    → (r >>= next) ≡ ok a
    → Steps r next a
Steps-of (ok b) next h = record { value = b; first = refl; rest = h }
Steps-of (err e) next h = absurd (ground (arith, h))

pub ok_inj : {A : Type 0} {a b : A} → ok a ≡ ok b → a ≡ b
ok_inj h = ground (arith, h)

pub index_some :
    {A : Type 0} (xs : List A) (i : ℕ) (d : A) {x : A}
    → index xs i ≡ ok x
    → (i < length xs) × (x ≡ get_or xs i d)
index_some [] i d h = absurd (ground (arith, h))
index_some (y ∷ ys) zero d h = (omega arith, sym (ok_inj h))
index_some (y ∷ ys) (suc i) d h = let (lt, same) = index_some ys i d h in (omega (arith, lt), same)

pub index_ok : {A : Type 0} (xs : List A) (i : ℕ) → i < length xs → (x : A) × (index xs i ≡ ok x)
index_ok [] i lt = absurd (omega (arith, lt))
index_ok (x ∷ xs) zero lt = (x, refl)
index_ok (x ∷ xs) (suc i) lt = index_ok xs i (omega (arith, lt))
