-- ===== src/Prelude/Text.antt =====
-- Rust's `split`, `trim`, `contains` and `join` on texts.
pub mod Split
pub mod Prefix
pub mod Replace
use Prim.Native.Nat.{ℕ}
use Prim.Native.Char.{Char, code}
use Prim.Native.String
use Prim.Native.String.{String}
use mathlib.Core.Bool.{Bool, true, false, ◌&&◌, ◌||◌}
use mathlib.Core.List.{List, [], ◌∷◌}
use mathlib.Core.Path.{◌≡◌, refl}
use mathlib.Core.Option.{Option, none, some}
use text.Mathlib.Text.{find?}
use tembo.Prelude.Tests.{nat_eq, leb, is_some, if◌then◌else◌}

-- `char::is_whitespace`: Unicode's White_Space.
unfoldable pub is_whitespace : ℕ → Bool
is_whitespace c =
    (leb 9 c && leb c 13)
    || nat_eq c 32
    || nat_eq c 0x85
    || nat_eq c 0xa0
    || nat_eq c 0x1680
    || (leb 0x2000 c && leb c 0x200a)
    || nat_eq c 0x2028
    || nat_eq c 0x2029
    || nat_eq c 0x202f
    || nat_eq c 0x205f
    || nat_eq c 0x3000

abbrev is_empty : String → Bool
is_empty String.[] = true
is_empty (String.◌∷◌ c s) = false

unfoldable pub trim_start : String → String
unfolding is_whitespace
trim_start String.[] = ""
trim_start (String.◌∷◌ c s) =
    let rest = trim_start s in if is_whitespace (code c) then rest else String.◌∷◌ c s

unfoldable pub trim_end : String → String
unfolding is_whitespace
trim_end String.[] = ""
trim_end (String.◌∷◌ c s) =
    let rest = trim_end s in
    if is_empty rest && is_whitespace (code c) then "" else String.◌∷◌ c rest

unfoldable pub trim : String → String
unfolding trim_start trim_end
trim s = trim_end (trim_start s)

-- One more character for the first part.
abbrev extend : Char → List String → List String
extend c [] = String.◌∷◌ c "" ∷ []
extend c (w ∷ ws) = String.◌∷◌ c w ∷ ws

-- `s.split(c)`: always one part at least.
unfoldable pub split_char : ℕ → String → List String
split_char c String.[] = "" ∷ []
split_char c (String.◌∷◌ d s) =
    let rest = split_char c s in if nat_eq (code d) c then "" ∷ rest else extend d rest

-- `s.contains(t)`
unfoldable pub contains : String → String → Bool
contains s t = is_some (find? s t)

-- `parts.join(sep)`
unfoldable pub join : String → List String → String
join sep [] = ""
join sep (w ∷ []) = w
join sep (w ∷ v ∷ ws) = String.◌++◌ w (String.◌++◌ sep (join sep (v ∷ ws)))

-- `format!` of texts.
unfoldable pub concat : List String → String
concat [] = ""
concat (s ∷ ss) = String.◌++◌ s (concat ss)

split_test : split_char b',' "a, b,,c" ≡ "a" ∷ " b" ∷ "" ∷ "c" ∷ []
unfolding split_char
split_test = refl

trim_test : trim "  a b\t" ≡ "a b"
unfolding trim
trim_test = refl

join_test : join "," ("a" ∷ "b" ∷ "c" ∷ []) ≡ "a,b,c"
unfolding join
join_test = refl

-- `s.strip_prefix(p)`
unfoldable pub strip_prefix : String → String → Option String
strip_prefix String.[] s = some s
strip_prefix (String.◌∷◌ c p) String.[] = none
strip_prefix (String.◌∷◌ c p) (String.◌∷◌ d s) =
    if nat_eq (code d) (code c) then strip_prefix p s else none

-- `s.starts_with(p)`
abbrev pub starts_with : String → String → Bool
starts_with p s = is_some (strip_prefix p s)
