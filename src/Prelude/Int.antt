-- ===== src/Prelude/Int.antt =====
-- Rust's `parse::<i32>()` and the printing of integers.
use Prim.Native.Nat.{ℕ, zero, suc, ◌+◌, ◌-◌, ◌*◌, ◌/◌, ◌%◌, ◌^◌}
use Prim.Native.Char.{code}
use Prim.Native.String
use Prim.Native.String.{String}
use mathlib.Core.Bool.{Bool, true, false, ◌&&◌}
use mathlib.Core.Option.{Option, none, some}
use tembo.Prelude.Tests.{nat_eq, leb, ltb, if◌then◌else◌}

-- `negsuc n` is the number -(n + 1).
pub data ℤ : Type 0 where
  pos : ℕ → ℤ
  negsuc : ℕ → ℤ

-- `n as i32` of a `u32`, whose upper half is that of the negative numbers.
unfoldable pub as_i32 : ℕ → ℤ
as_i32 n = let low = n % 2 ^ 32 in if ltb low (2 ^ 31) then pos low else negsuc (2 ^ 32 - 1 - low)

abbrev is_digit : ℕ → Bool
is_digit c = leb 48 c && leb c 57

unfoldable pub parse_digits : ℕ → String → Option ℕ
parse_digits sum String.[] = some sum
parse_digits sum (String.◌∷◌ c s) =
    let rest = parse_digits (sum * 10 + (code c - 48)) s in if is_digit (code c) then rest else none

abbrev parse_unsigned : String → Option ℕ
parse_unsigned String.[] = none
parse_unsigned (String.◌∷◌ c s) = parse_digits 0 (String.◌∷◌ c s)

abbrev negate : ℕ → ℤ
negate zero = pos 0
negate (suc n) = negsuc n

-- The number with a sign, in the range of `i32`.
abbrev in_range : Bool → Option ℕ → Option ℤ
in_range negative none = none
in_range true (some n) = if leb n (2 ^ 31) then some (negate n) else none
in_range false (some n) = if ltb n (2 ^ 31) then some (pos n) else none

unfoldable pub parse_i32 : String → Option ℤ
unfolding parse_digits
parse_i32 String.[] = none
parse_i32 (String.◌∷◌ c s) =
    if nat_eq (code c) 45
    then in_range true (parse_unsigned s)
    else in_range false
        (if nat_eq (code c) 43 then parse_unsigned s else parse_digits 0 (String.◌∷◌ c s))

abbrev digit : ℕ → String
digit n =
    if nat_eq n 0
    then "0"
    else if nat_eq n 1
    then "1"
    else if nat_eq n 2
    then "2"
    else if nat_eq n 3
    then "3"
    else if nat_eq n 4
    then "4"
    else if nat_eq n 5
    then "5"
    else if nat_eq n 6
    then "6"
    else if nat_eq n 7
    then "7"
    else if nat_eq n 8
    then "8"
    else "9"

-- The digits of a number, on fuel: a number has at most as many digits as itself and one more.
unfoldable pub show_digits : ℕ → ℕ → String
show_digits zero n = ""
show_digits (suc fuel) n =
    let before = show_digits fuel (n / 10) in
    if ltb n 10 then digit n else String.◌++◌ before (digit (n % 10))

unfoldable pub show : ℕ → String
unfolding show_digits
show n = show_digits (suc n) n

unfoldable pub show_int : ℤ → String
unfolding show
show_int (pos n) = show n
show_int (negsuc n) = String.◌++◌ "-" (show (suc n))
