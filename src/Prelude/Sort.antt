-- ===== src/Prelude/Sort.antt =====
-- Rust's `sort_by`: a stable sort, here by insertion, over the test `a ≤ b` of its comparator.
use mathlib.Core.Path.{◌≡◌, refl}
use mathlib.Core.Logic.{inl, inr}
use mathlib.Core.Bool.{Bool, true, false}
use mathlib.Core.List.{List, [], ◌∷◌, Perm}
use mathlib.Core.List.Perm
use native.Mathlib.Omega.{arith}
use tembo.Prelude.Tests.{if◌then◌else◌, Bool-cases}
use tembo.Prelude.Lists.{All, find, any}

module _ {ℓ} {A : Type ℓ} (le : A → A → Bool) where
  unfoldable pub sort_insert : A → List A → List A
  sort_insert x [] = x ∷ []
  sort_insert x (y ∷ ys) = let later = y ∷ sort_insert x ys in if le x y then x ∷ y ∷ ys else later

  unfoldable pub sort_by : List A → List A
  unfolding sort_insert
  sort_by [] = []
  sort_by (x ∷ xs) = sort_insert x (sort_by xs)

  sort_insert-perm : (x : A) (ys : List A) → Perm (sort_insert x ys) (x ∷ ys)
  unfolding sort_insert
  sort_insert-perm x [] = Perm.refl _
  sort_insert-perm x (y ∷ ys) = elim (Bool-cases (le x y)) [
    | inl h ↦ rw (h, sort_insert) (Perm.refl _)
    | inr h ↦
        rw (h, sort_insert) (Perm.trans (Perm.cons y (sort_insert-perm x ys)) (Perm.swap _ _ _))
  ]

  -- Sorting keeps the elements, each as often.
  pub sort_by-perm : (xs : List A) → Perm (sort_by xs) xs
  unfolding sort_by
  sort_by-perm [] = Perm.refl _
  sort_by-perm (x ∷ xs) =
      Perm.trans (sort_insert-perm x (sort_by xs)) (Perm.cons x (sort_by-perm xs))

  find-sort_insert :
      (p : A → Bool)
      → ((x y : A) → p x ≡ true → p y ≡ true → le x y ≡ true)
      → (x : A) (ys : List A) → find p (sort_insert x ys) ≡ find p (x ∷ ys)
  unfolding sort_insert find
  find-sort_insert p tie x [] = refl
  find-sort_insert p tie x (y ∷ ys) = ground (arith, tie x y, find-sort_insert p tie x ys)

  -- The sort is stable: the first element that passes a test stays the first, if all that pass
  -- are ties.
  pub find-sort_by :
      (p : A → Bool)
      → ((x y : A) → p x ≡ true → p y ≡ true → le x y ≡ true)
      → (xs : List A) → find p (sort_by xs) ≡ find p xs
  unfolding sort_by find
  find-sort_by p tie [] = refl
  find-sort_by p tie (x ∷ xs) =
      rw (find-sort_insert p tie x (sort_by xs)) (ground (arith, find-sort_by p tie xs))

  any-sort_insert : (p : A → Bool) (x : A) (ys : List A) → any p (sort_insert x ys) ≡ any p (x ∷ ys)
  unfolding sort_insert
  any-sort_insert p x [] = refl
  any-sort_insert p x (y ∷ ys) = ground (arith, any-sort_insert p x ys)

  pub any-sort_by : (p : A → Bool) (xs : List A) → any p (sort_by xs) ≡ any p xs
  unfolding sort_by
  any-sort_by p [] = refl
  any-sort_by p (x ∷ xs) = ground (arith, any-sort_insert p x (sort_by xs), any-sort_by p xs)

module _ {ℓ κ} {A : Type ℓ} (P : A → Type κ) (le : A → A → Bool) where
  All-sort_insert : (x : A) (ys : List A) → P x → All P ys → All P (sort_insert le x ys)
  unfolding sort_insert
  All-sort_insert x [] p h = (p, tt)
  All-sort_insert x (y ∷ ys) p h = elim (Bool-cases (le x y)) [
    | inl e ↦ rw (e, sort_insert) (p, h)
    | inr e ↦ rw (e, sort_insert) (h.0, All-sort_insert x ys p h.1)
  ]

  pub All-sort_by : (xs : List A) → All P xs → All P (sort_by le xs)
  unfolding sort_by
  All-sort_by [] h = tt
  All-sort_by (x ∷ xs) h = All-sort_insert x (sort_by le xs) h.0 (All-sort_by xs h.1)

-- Every element is at most each later one.
abbrev pub IsSorted {ℓ} : {A : Type ℓ} → (A → A → Bool) → List A → Type 0
IsSorted le [] = Unit
IsSorted le (x ∷ xs) = All (λ y. le x y ≡ true) xs × IsSorted le xs

module _ {ℓ} {A : Type ℓ} (le : A → A → Bool)
    (trans : (x y z : A) → le x y ≡ true → le y z ≡ true → le x z ≡ true)
    (total : (x y : A) → le x y ≡ false → le y x ≡ true) where
  All-le :
      (x y : A) (ys : List A)
      → le x y ≡ true
      → All (λ z. le y z ≡ true) ys
      → All (λ z. le x z ≡ true) ys
  All-le x y [] h k = tt
  All-le x y (z ∷ ys) h k = (trans x y z h k.0, All-le x y ys h k.1)

  sort_insert-IsSorted : (x : A) (ys : List A) → IsSorted le ys → IsSorted le (sort_insert le x ys)
  unfolding sort_insert
  sort_insert-IsSorted x [] h = (tt, tt)
  sort_insert-IsSorted x (y ∷ ys) h = elim (Bool-cases (le x y)) [
    | inl e ↦ rw (e, sort_insert) ((e, All-le x y ys e h.0), h)
    | inr e ↦
        rw (e, sort_insert)
          (
            All-sort_insert (λ z. le y z ≡ true) le x ys (total x y e) h.0,
            sort_insert-IsSorted x ys h.1,
          )
  ]

  pub sort_by-IsSorted : (xs : List A) → IsSorted le (sort_by le xs)
  unfolding sort_by
  sort_by-IsSorted [] = tt
  sort_by-IsSorted (x ∷ xs) = sort_insert-IsSorted x (sort_by le xs) (sort_by-IsSorted xs)
