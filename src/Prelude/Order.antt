-- ===== src/Prelude/Order.antt =====
-- Rust's `cmp` on texts (the order of the bytes): a strict total order.
use Prim.Native.Nat.{Ordering}
use Prim.Native.String.compare
use Prim.Native.String.{String, [], ◌∷◌, compare}
use mathlib.Core.Path.{◌≡◌}
use mathlib.Core.Bool.{Bool, true, false, not}
use native.Mathlib.Omega.{arith}
use text.Mathlib.Text.{is_lt}
use text.Mathlib.TextEquality.{path_by_compare}
use text.Mathlib.TextPositions.{compare_refl}

-- `a < b` and `a ≤ b` on texts.
unfoldable pub str_lt : String → String → Bool
str_lt s t = is_lt (compare s t)

abbrev pub str_le : String → String → Bool
str_le s t = not (str_lt t s)

pub str_lt_irrefl : (s : String) → str_lt s s ≡ false
unfolding str_lt
str_lt_irrefl s = rw (compare_refl s)

pub str_lt_trans : (s t u : String) → str_lt s t ≡ true → str_lt t u ≡ true → str_lt s u ≡ true
unfolding str_lt
str_lt_trans [] [] u h k = ground (arith, compare.nil-nil)
str_lt_trans [] (d ∷ t) [] h k = ground (arith, compare.cons-nil d t)
str_lt_trans [] (d ∷ t) (e ∷ u) h k = rw (compare.nil-cons e u)
str_lt_trans (c ∷ s) [] u h k = ground (arith, compare.cons-nil c s)
str_lt_trans (c ∷ s) (d ∷ t) [] h k = ground (arith, compare.cons-nil d t)
str_lt_trans (c ∷ s) (d ∷ t) (e ∷ u) h k = ground (
  arith,
  compare.cons-cons c d s t,
  compare.cons-cons d e t u,
  compare.cons-cons c e s u,
  str_lt_trans s t u,
)

pub str_lt_asymm : (s t : String) → str_lt s t ≡ true → str_lt t s ≡ false
str_lt_asymm s t h = ground (arith, str_lt_trans s t s, str_lt_irrefl s)

compare-gt : (s t : String) → compare s t ≡ Ordering.gt → compare t s ≡ Ordering.lt
compare-gt [] [] h = ground (arith, compare.nil-nil)
compare-gt [] (d ∷ t) h = ground (arith, compare.nil-cons d t)
compare-gt (c ∷ s) [] h = rw (compare.nil-cons c s)
compare-gt (c ∷ s) (d ∷ t) h =
    ground (arith, compare-gt s t, compare.cons-cons c d s t, compare.cons-cons d c t s)

-- Of two texts, one is less, or they are equal.
pub str_lt_total : (s t : String) → str_lt s t ≡ false → str_lt t s ≡ false → s ≡ t
unfolding str_lt
str_lt_total s t h k = path_by_compare s t (ground (arith, compare-gt s t))

pub str_le_trans : (s t u : String) → str_le s t ≡ true → str_le t u ≡ true → str_le s u ≡ true
str_le_trans s t u h k = ground (
  arith,
  str_lt_trans u s t,
  str_lt_total s t,
  str_lt_total t u,
  str_lt_trans u t s,
  str_lt_irrefl u,
  str_lt_asymm u s,
)

pub str_le_total : (s t : String) → str_le s t ≡ false → str_le t s ≡ true
str_le_total s t h = ground (arith, str_lt_asymm t s)
