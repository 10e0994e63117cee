-- ===== src/Outcome.antt =====
-- src/error.rs: errors as values. The texts that the errors carry are left out, the numbers are
-- kept. A method with `&mut self` is a function of the state that returns its result and the state
-- that it leaves, also when it fails; its `?` is the `>>=` of `Outcome.Stateful`.
pub mod Stateful
pub mod Yields
pub mod Steps
use oram.Base.{ℕ, Bool, true, false, List, Option, none, some, get_elem?}

pub data Error : Type 0 where
  invalid_params invalid_input : Error
  stash_overflow : ℕ → ℕ → Error
  block_not_found : ℕ → Error
  io bincode hex aead : Error
  -- not of the source: an `expect` on `None` or an index out of range, which ends the program
  panicked : Error

pub data Result {ℓ} (A : Type ℓ) : Type ℓ where
  ok : A → Result A
  err : Error → Result A

infixl 5 ◌>>=◌ ◌>>◌
-- The operator `?`, with what is done after it.
abbrev pub ◌>>=◌ {κ ℓ} : {B : Type κ} {A : Type ℓ} → Result B → (B → Result A) → Result A
err failure >>= next = err failure
ok value >>= next = next value

abbrev pub ◌>>◌ {ℓ} : {A : Type ℓ} → Result (Unit {0}) → Result A → Result A
first >> then_result = first >>= (λ done. then_result)

-- `if failed { return Err(e) }`
abbrev pub reject_if : Bool → Error → Result (Unit {0})
reject_if true e = err e
reject_if false e = ok tt

abbrev pub expect {ℓ} : {A : Type ℓ} → Option A → Result A
expect none = err panicked
expect (some a) = ok a

abbrev pub index {ℓ} : {A : Type ℓ} → List A → ℕ → Result A
index xs i = expect (get_elem? xs i)
