-- ===== src/Prelude/BTreeSet.antt =====
-- Rust's `BTreeSet<String>`: the elements in order.
use Prim.Native.String.{String}
use mathlib.Core.Path.{◌≡◌, refl, sym, ◌∙◌}
use mathlib.Core.Bool.{Bool, false, true, ◌||◌}
use mathlib.Core.Logic.{inl, inr}
use mathlib.Core.List.{List, [], ◌∷◌, ◌++◌, append-nil, append_assoc}
use native.Mathlib.Omega.{arith}
use text.Mathlib.TextEquality.{eq_iff}
use tembo.Prelude.Tests.{◌==◌, if◌then◌else◌, Bool-cases}
use tembo.Prelude.Order.{str_lt, str_lt_irrefl, str_lt_asymm, str_lt_trans, str_lt_total}
use tembo.Prelude.Lists.{All, All-middle}

abbrev pub BTreeSet : Type 0
BTreeSet = List String

unfoldable pub has : String → BTreeSet → Bool
has k [] = false
has k (j ∷ s) = j == k || has k s

unfoldable pub insert : String → BTreeSet → BTreeSet
insert k [] = k ∷ []
insert k (j ∷ s) =
    let later = j ∷ insert k s in if j == k then j ∷ s else if str_lt k j then k ∷ j ∷ s else later

-- `append`: all elements of the second set go into the first.
unfoldable pub append : BTreeSet → BTreeSet → BTreeSet
append s [] = s
append s (k ∷ t) = append (insert k s) t

-- `collect` from an iterator of texts.
unfoldable pub from_list : List String → BTreeSet
unfolding append insert
from_list l = append [] l

pub has-insert : (k j : String) (s : BTreeSet) → has j (insert k s) ≡ (k == j || has j s)
unfolding has insert
has-insert k j [] = refl
has-insert k j (i ∷ s) = ground (arith, eq_iff k j, eq_iff i k, eq_iff i j, has-insert k j s)

pub has-append : (j : String) (s t : BTreeSet) → has j (append s t) ≡ (has j s || has j t)
unfolding append has
has-append j s [] = ground arith
has-append j s (k ∷ t) = ground (arith, has-append j (insert k s) t, has-insert k j s)

pub has-from_list : (j : String) (l : List String) → has j (from_list l) ≡ has j l
unfolding from_list has
has-from_list j l = has-append j [] l

-- The elements are strictly increasing.
abbrev pub IsOrdered : BTreeSet → Type 0
IsOrdered [] = Unit
IsOrdered (k ∷ s) = All (λ j. str_lt k j ≡ true) s × IsOrdered s

Above-trans :
    (k j : String) (s : BTreeSet)
    → str_lt k j ≡ true
    → All (λ i. str_lt j i ≡ true) s
    → All (λ i. str_lt k i ≡ true) s
Above-trans k j [] h a = tt
Above-trans k j (i ∷ s) h a = (str_lt_trans k j i h a.0, Above-trans k j s h a.1)

Above-insert :
    (k j : String) (s : BTreeSet)
    → str_lt j k ≡ true
    → All (λ i. str_lt j i ≡ true) s
    → All (λ i. str_lt j i ≡ true) (insert k s)
unfolding insert
Above-insert k j [] h a = (h, tt)
Above-insert k j (i ∷ s) h a = elim (Bool-cases (i == k)) [
  | inl e ↦ rw (e, insert) a
  | inr e ↦ elim (Bool-cases (str_lt k i)) [
    | inl f ↦ rw (e, f, insert) (h, a)
    | inr f ↦ rw (e, f, insert) (a.0, Above-insert k j s h a.1)
  ]
]

pub insert-IsOrdered : (k : String) (s : BTreeSet) → IsOrdered s → IsOrdered (insert k s)
unfolding insert
insert-IsOrdered k [] h = (tt, tt)
insert-IsOrdered k (i ∷ s) h = elim (Bool-cases (i == k)) [
  | inl e ↦ rw (e, insert) h
  | inr e ↦ elim (Bool-cases (str_lt k i)) [
    | inl f ↦ rw (e, f, insert) ((f, Above-trans k i s f h.0), h)
    | inr f ↦
        let less : str_lt i k ≡ true = ground (arith, eq_iff i k, str_lt_total i k) in
        rw (e, f, insert) (Above-insert k i s less h.0, insert-IsOrdered k s h.1)
  ]
]

pub append-IsOrdered : (s t : BTreeSet) → IsOrdered s → IsOrdered (append s t)
unfolding append
append-IsOrdered s [] h = h
append-IsOrdered s (k ∷ t) h = append-IsOrdered (insert k s) t (insert-IsOrdered k s h)

pub from_list-IsOrdered : (l : List String) → IsOrdered (from_list l)
unfolding from_list
from_list-IsOrdered l = append-IsOrdered [] l tt

insert_last :
    (k : String) (s : BTreeSet) → All (λ j. str_lt j k ≡ true) s → insert k s ≡ s ++ k ∷ []
unfolding insert
insert_last k [] h = refl
insert_last k (j ∷ s) (h, a) =
    ground (arith, eq_iff j k, str_lt_irrefl j, str_lt_asymm j k, insert_last k s a)

below_middle :
    (s : BTreeSet) (k : String) (t : BTreeSet)
    → IsOrdered (s ++ k ∷ t)
    → All (λ j. str_lt j k ≡ true) s
below_middle [] k t h = tt
below_middle (j ∷ s) k t (h, o) =
    (All-middle (λ i. str_lt j i ≡ true) s k t h, below_middle s k t o)

append-eq-append : (s t : BTreeSet) → IsOrdered (s ++ t) → append s t ≡ s ++ t
unfolding append
append-eq-append s [] h = sym (append-nil s)
append-eq-append s (k ∷ t) h =
    rw (insert_last k s (below_middle s k t h))
      (append-eq-append (s ++ k ∷ []) t (rw append_assoc h) ∙ append_assoc s (k ∷ []) t)

-- Collecting the elements of a set gives the set.
pub from_list_of_IsOrdered : (s : BTreeSet) → IsOrdered s → from_list s ≡ s
unfolding from_list
from_list_of_IsOrdered s h = append-eq-append [] s h
