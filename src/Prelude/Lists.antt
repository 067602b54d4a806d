-- ===== src/Prelude/Lists.antt =====
-- Lists: Rust's `find`, `any`, `retain`, `dedup_by` and `contains`, and a predicate on all members.
use Prim.Native.Nat.{ℕ, suc}
use Prim.Native.String.{String}
use mathlib.Core.Path.{◌≡◌, refl, ap, subst}
use mathlib.Core.Logic.{◌⊎◌, inl, inr}
use mathlib.Core.Bool.{Bool, true, false, ◌||◌}
use mathlib.Core.Option.{Option, none, some}
use mathlib.Core.List.{List, [], ◌∷◌, ◌++◌}
use native.Mathlib.Omega.{arith}
use tembo.Prelude.Tests.{◌==◌, if◌then◌else◌, Bool-cases}

module _ {ℓ} {A : Type ℓ} where
  abbrev pub length : List A → ℕ
  length [] = 0
  length (x ∷ xs) = suc (length xs)

  abbrev pub any : (A → Bool) → List A → Bool
  any p [] = false
  any p (x ∷ xs) = p x || any p xs

  abbrev pub cons_to : A → Option (List A) → Option (List A)
  cons_to x none = none
  cons_to x (some xs) = some (x ∷ xs)

  -- The members of a list that may not be there.
  abbrev pub members : Option (List A) → List A
  members none = []
  members (some xs) = xs

  -- `iter().find(p).cloned()`
  unfoldable pub find : (A → Bool) → List A → Option A
  find p [] = none
  find p (x ∷ xs) = let rest = find p xs in if p x then some x else rest

  -- `retain`
  unfoldable pub retain : (A → Bool) → List A → List A
  retain p [] = []
  retain p (x ∷ xs) = let rest = retain p xs in if p x then x ∷ rest else rest

  -- `dedup_by`: an element goes if it is related to the last one that was kept.
  unfoldable pub dedup_from : (A → A → Bool) → A → List A → List A
  dedup_from same k [] = []
  dedup_from same k (x ∷ xs) =
      let skipped = dedup_from same k xs in
      let kept = x ∷ dedup_from same x xs in if same x k then skipped else kept

  unfoldable pub dedup_by : (A → A → Bool) → List A → List A
  unfolding dedup_from
  dedup_by same [] = []
  dedup_by same (x ∷ xs) = x ∷ dedup_from same x xs

module _ {ℓ} {A : Type ℓ} (p : A → Bool) (same : A → A → Bool)
    (agree : (x k : A) → same x k ≡ true → p x ≡ p k) where
  find-dedup_from : (k : A) (xs : List A) → find p (k ∷ dedup_from same k xs) ≡ find p (k ∷ xs)
  unfolding find dedup_from
  find-dedup_from k [] = refl
  find-dedup_from k (x ∷ xs) = ground (arith, agree x k, find-dedup_from k xs, find-dedup_from x xs)

  -- Where related elements pass or fail a test together, `dedup_by` keeps the first that passes.
  pub find-dedup_by : (xs : List A) → find p (dedup_by same xs) ≡ find p xs
  unfolding find dedup_by
  find-dedup_by [] = refl
  find-dedup_by (x ∷ xs) = find-dedup_from x xs

module _ {ℓ} {A : Type ℓ} (p : A → Bool) where
  pub any-append : (xs ys : List A) → any p (xs ++ ys) ≡ (any p xs || any p ys)
  any-append [] ys = refl
  any-append (x ∷ xs) ys = ground (arith, any-append xs ys)

  module _ (same : A → A → Bool) (agree : (x k : A) → same x k ≡ true → p x ≡ p k) where
    any-dedup_from : (k : A) (xs : List A) → any p (k ∷ dedup_from same k xs) ≡ any p (k ∷ xs)
    unfolding dedup_from
    any-dedup_from k [] = refl
    any-dedup_from k (x ∷ xs) = ground (arith, agree x k, any-dedup_from k xs, any-dedup_from x xs)

    -- Where related elements pass or fail a test together, `dedup_by` keeps one that passes.
    pub any-dedup_by : (xs : List A) → any p (dedup_by same xs) ≡ any p xs
    unfolding dedup_by
    any-dedup_by [] = refl
    any-dedup_by (x ∷ xs) = any-dedup_from x xs

module _ {ℓ κ} {A : Type ℓ} (P : A → Type κ) where
  abbrev pub All : List A → Type κ
  All [] = Unit
  All (x ∷ xs) = P x × All xs

  pub All-append : (xs ys : List A) → All xs → All ys → All (xs ++ ys)
  All-append [] ys h k = k
  All-append (x ∷ xs) ys (p, h) k = (p, All-append xs ys h k)

  pub All-middle : (xs : List A) (y : A) (ys : List A) → All (xs ++ y ∷ ys) → P y
  All-middle [] y ys h = h.0
  All-middle (x ∷ xs) y ys h = All-middle xs y ys h.1

  pub All-retain : (q : A → Bool) (xs : List A) → All xs → All (retain q xs)
  unfolding retain
  All-retain q [] h = tt
  All-retain q (x ∷ xs) (p, h) = let ih = All-retain q xs h in ground arith

  pub find-All : (q : A → Bool) (xs : List A) (a : A) → All xs → find q xs ≡ some a → P a
  unfolding find
  find-All q [] a h e = cc
  find-All q (x ∷ xs) a (p, h) e = elim (Bool-cases (q x)) [
    | inl here ↦ let same : x ≡ a = ground arith in subst P same p
    | inr later ↦ let found : find q xs ≡ some a = ground arith in find-All q xs a h found
  ]

-- Membership as a sum of equations, which the tactics take apart.
abbrev pub In : {A : Type 0} → A → List A → Type 0
In a [] = ⊥
In a (x ∷ xs) = (a ≡ x) ⊎ In a xs

-- `contains` on a list of texts.
unfoldable pub list_contains : List String → String → Bool
list_contains [] a = false
list_contains (x ∷ xs) a = x == a || list_contains xs a

pub list_contains-eq-any :
    (xs : List String) (a : String) → list_contains xs a ≡ any (λ x. x == a) xs
unfolding list_contains
list_contains-eq-any [] a = refl
list_contains-eq-any (x ∷ xs) a = ap (λ b. x == a || b) (list_contains-eq-any xs a)
