-- ===== src/Outcome/Yields.antt =====
-- What holds of the result and the state that a method leaves if it succeeds.
use oram.Base.{◌≡◌, refl, subst, Bool, true, false, if◌then◌else◌}
use oram.Outcome.{Result, Error, ok, err}
use oram.Outcome.Stateful.{M, continue}

abbrev Post : {S A : Type 0} → (A → S → Type 0) → Result A × S → Type 0
Post Q (ok a, s) = Q a s
Post Q (err e, s) = Unit {0}

pub record Yields {S A : Type 0} (Q : A → S → Type 0) (r : Result A × S) : Type 0 where
  pub post : Post Q r

module _ {S A : Type 0} {Q : A → S → Type 0} where
  pub Yields-at : {r : Result A × S} {a : A} {s : S} → Yields Q r → r ≡ (ok a, s) → Q a s
  Yields-at y e = subst (Post Q) e y.post

  pub Yields-ok : {a : A} {s : S} → Q a s → Yields Q (ok a, s)
  Yields-ok h = record { post = h }

  pub Yields-err : {e : Error} {s : S} → Yields Q (err e, s)
  Yields-err = record { post = tt }

  pub Yields-end : {s : S} (r : Result A) → ((a : A) → r ≡ ok a → Q a s) → Yields Q (r, s)
  Yields-end (ok a) k = Yields-ok (k a refl)
  Yields-end (err e) k = Yields-err

  pub Yields-weaken :
      {R : A → S → Type 0} {r : Result A × S}
      → Yields R r
      → ((a : A) (s : S) → R a s → Q a s)
      → Yields Q r
  Yields-weaken {R = R} {r = r} y k = record { post = go r y.post }
    where
      go : (r : Result A × S) → Post R r → Post Q r
      go (ok a, s) h = k a s h
      go (err e, s) h = tt

  pub Yields-if :
      (b : Bool) (m n : M S A) {s : S}
      → (b ≡ true → Yields Q (m s))
      → (b ≡ false → Yields Q (n s))
      → Yields Q ((if b then m else n) s)
  Yields-if true m n k k' = k refl
  Yields-if false m n k k' = k' refl

module _ {S A B : Type 0} {Q : B → S → Type 0} where
  pub Yields-continue :
      {R : A → S → Type 0} {r : Result A × S} {f : A → M S B}
      → Yields R r
      → ((a : A) (s : S) → R a s → Yields Q (f a s))
      → Yields Q (continue f r)
  Yields-continue {R = R} {r = r} {f = f} y k = go r y.post
    where
      go : (r : Result A × S) → Post R r → Yields Q (continue f r)
      go (ok a, s) h = k a s h
      go (err e, s) h = Yields-err

  -- The rest may use that `r` did not fail.
  pub Yields-lift :
      (r : Result A) (f : A → M S B) {s : S}
      → ((a : A) → r ≡ ok a → Yields Q (f a s))
      → Yields Q (continue f (r, s))
  Yields-lift (ok a) f k = k a refl
  Yields-lift (err e) f k = Yields-err
