-- ===== src/Prelude/BTreeMap.antt =====
-- Rust's `BTreeMap<String, V>`: the entries in the order of their keys.
use Prim.Native.String.{String}
use mathlib.Core.Path.{◌≡◌, refl}
use mathlib.Core.Logic.{inl, inr}
use mathlib.Core.Bool.{true}
use mathlib.Core.Option.{Option, none, some}
use mathlib.Core.List.{List, [], ◌∷◌, map}
use native.Mathlib.Omega.{arith}
use text.Mathlib.TextEquality.{eq_iff}
use tembo.Prelude.Tests.{◌==◌, if◌then◌else◌, Bool-cases}
use tembo.Prelude.Order.{str_lt, str_lt_irrefl, str_lt_trans, str_lt_total}
use tembo.Prelude.Lists.{All}

abbrev pub BTreeMap {ℓ} : Type ℓ → Type ℓ
BTreeMap V = List (String × V)

module _ {ℓ} {V : Type ℓ} where
  unfoldable pub get : String → BTreeMap V → Option V
  get k [] = none
  get k ((j, v) ∷ m) = if j == k then some v else get k m

  unfoldable pub insert : String → V → BTreeMap V → BTreeMap V
  insert k v [] = (k, v) ∷ []
  insert k v ((j, w) ∷ m) =
      let later = (j, w) ∷ insert k v m in
      if j == k then (k, v) ∷ m else if str_lt k j then (k, v) ∷ (j, w) ∷ m else later

  unfoldable pub remove : String → BTreeMap V → BTreeMap V
  remove k [] = []
  remove k ((j, w) ∷ m) = let rest = remove k m in if j == k then rest else (j, w) ∷ rest

  -- `into_values().collect()`
  abbrev pub values : BTreeMap V → List V
  values m = map (λ e. e.1) m

  pub get-insert :
      (k j : String) (v : V) (m : BTreeMap V)
      → get j (insert k v m) ≡ (if k == j then some v else get j m)
  unfolding get insert
  get-insert k j v [] = refl
  get-insert k j v ((i, w) ∷ m) =
      ground (arith, eq_iff k j, eq_iff i k, eq_iff i j, get-insert k j v m)

  pub get-remove :
      (k j : String) (m : BTreeMap V) → get j (remove k m) ≡ (if k == j then none else get j m)
  unfolding get remove
  get-remove k j [] = ground arith
  get-remove k j ((i, w) ∷ m) = ground (arith, eq_iff k j, eq_iff i k, eq_iff i j, get-remove k j m)

  -- The keys are strictly increasing.
  abbrev pub IsOrdered : BTreeMap V → Type 0
  IsOrdered [] = Unit
  IsOrdered ((k, v) ∷ m) = All (λ e. str_lt k e.0 ≡ true) m × IsOrdered m

  -- A key below all the others is not there.
  pub get-below : (k : String) (m : BTreeMap V) → All (λ e. str_lt k e.0 ≡ true) m → get k m ≡ none
  unfolding get
  get-below k [] h = refl
  get-below k ((j, w) ∷ m) (h, hs) = ground (arith, eq_iff j k, str_lt_irrefl k, get-below k m hs)

  Above : String → BTreeMap V → Type 0
  Above k m = All (λ e. str_lt k e.0 ≡ true) m

  Above-trans : (k j : String) (m : BTreeMap V) → str_lt k j ≡ true → Above j m → Above k m
  unfolding Above
  Above-trans k j [] h a = tt
  Above-trans k j ((i, w) ∷ m) h a = (str_lt_trans k j i h a.0, Above-trans k j m h a.1)

  Above-insert :
      (k j : String) (v : V) (m : BTreeMap V)
      → str_lt j k ≡ true
      → Above j m
      → Above j (insert k v m)
  unfolding insert Above
  Above-insert k j v [] h a = (h, tt)
  Above-insert k j v ((i, w) ∷ m) h a = elim (Bool-cases (i == k)) [
    | inl e ↦ rw (e, insert) (h, a.1)
    | inr e ↦ elim (Bool-cases (str_lt k i)) [
      | inl f ↦ rw (e, f, insert) (h, a)
      | inr f ↦ rw (e, f, insert) (a.0, Above-insert k j v m h a.1)
    ]
  ]

  pub insert-IsOrdered :
      (k : String) (v : V) (m : BTreeMap V) → IsOrdered m → IsOrdered (insert k v m)
  unfolding insert Above
  insert-IsOrdered k v [] h = (tt, tt)
  insert-IsOrdered k v ((i, w) ∷ m) h = elim (Bool-cases (i == k)) [
    | inl e ↦ let same : i ≡ k = (eq_iff i k).0 e in rw (e, insert) (rw same at h)
    | inr e ↦ elim (Bool-cases (str_lt k i)) [
      | inl f ↦ rw (e, f, insert) ((f, Above-trans k i m f h.0), h)
      | inr f ↦
          let less : str_lt i k ≡ true = ground (arith, eq_iff i k, str_lt_total i k) in
          rw (e, f, insert) (Above-insert k i v m less h.0, insert-IsOrdered k v m h.1)
    ]
  ]

  Above-remove : (k j : String) (m : BTreeMap V) → Above j m → Above j (remove k m)
  unfolding remove Above
  Above-remove k j [] a = tt
  Above-remove k j ((i, w) ∷ m) a = elim (Bool-cases (i == k)) [
    | inl e ↦ rw (e, remove) (Above-remove k j m a.1)
    | inr e ↦ rw (e, remove) (a.0, Above-remove k j m a.1)
  ]

  pub remove-IsOrdered : (k : String) (m : BTreeMap V) → IsOrdered m → IsOrdered (remove k m)
  unfolding remove Above
  remove-IsOrdered k [] h = tt
  remove-IsOrdered k ((i, w) ∷ m) h = elim (Bool-cases (i == k)) [
    | inl e ↦ rw (e, remove) (remove-IsOrdered k m h.1)
    | inr e ↦ rw (e, remove) (Above-remove k i m h.0, remove-IsOrdered k m h.1)
  ]

module _ {ℓ κ} {V : Type ℓ} (P : String × V → Type κ) where
  pub All-insert : (k : String) (v : V) (m : BTreeMap V) → P (k, v) → All P m → All P (insert k v m)
  unfolding insert
  All-insert k v [] p h = (p, tt)
  All-insert k v ((j, w) ∷ m) p (q, h) = elim (Bool-cases (j == k)) [
    | inl e ↦ rw (e, insert) (p, h)
    | inr e ↦ elim (Bool-cases (str_lt k j)) [
      | inl f ↦ rw (e, f, insert) (p, (q, h))
      | inr f ↦ rw (e, f, insert) (q, All-insert k v m p h)
    ]
  ]

  pub All-remove : (k : String) (m : BTreeMap V) → All P m → All P (remove k m)
  unfolding remove
  All-remove k [] h = tt
  All-remove k ((j, w) ∷ m) (q, h) = elim (Bool-cases (j == k)) [
    | inl e ↦ rw (e, remove) (All-remove k m h)
    | inr e ↦ rw (e, remove) (q, All-remove k m h)
  ]
