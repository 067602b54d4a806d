-- ===== src/Prelude/Result.antt =====
-- Rust's `Result<A, E>` and the `?` operator as a monad.
use mathlib.Core.Path.{◌≡◌, refl}
use mathlib.Core.Logic.{◌⊎◌, inl, inr}
use mathlib.Core.Option.{Option, none, some}

pub data Result {e a} (Err : Type e) (Val : Type a) : Type (e ⊔ a) where
  err : Err → Result Err Val
  ok : Val → Result Err Val

-- An error ends the block, as `?` does.
module _ {e a b} {Err : Type e} {Val : Type a} {Next : Type b} where
  infixl 5 ◌>>=◌
  abbrev pub ◌>>=◌ : Result Err Val → (Val → Result Err Next) → Result Err Next
  err problem >>= next = err problem
  ok val >>= next = next val

  -- What succeeds has a first step that succeeds, and a rest that does.
  pub >>=-ok :
      (first : Result Err Val) (next : Val → Result Err Next) {res : Next}
      → (first >>= next) ≡ ok res
      → (val : Val) × (first ≡ ok val) × (next val ≡ ok res)
  >>=-ok (err problem) next h = cc
  >>=-ok (ok val) next h = (val, refl, h)

module _ {e a} {Err : Type e} {Val : Type a} where
  infixl 5 ◌>>◌
  abbrev pub ◌>>◌ : Result Err (Unit {0}) → Result Err Val → Result Err Val
  err problem >> next = err problem
  ok _ >> next = next

  -- `ok_or`
  abbrev pub ok_or : Err → Option Val → Result Err Val
  ok_or problem (some val) = ok val
  ok_or problem none = err problem

  pub Result-cases :
      (res : Result Err Val) → ((val : Val) × (res ≡ ok val)) ⊎ ((p : Err) × (res ≡ err p))
  Result-cases (err problem) = inr (problem, refl)
  Result-cases (ok val) = inl (val, refl)

  pub ok-injective : {v w : Val} → ◌≡◌ {A = Result Err Val} (ok v) (ok w) → v ≡ w
  ok-injective h = cc
