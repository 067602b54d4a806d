-- ===== src/Prelude/Text/Replace.antt =====
-- Rust's `replace` and `to_uppercase`, the latter of ASCII texts.
use Prim.Native.Nat.{ℕ, zero, suc}
use Prim.Native.Char.{Char, code}
use Prim.Native.String
use Prim.Native.String.{String}
use mathlib.Core.Path.{◌≡◌, refl}
use tembo.Prelude.Tests.{nat_eq, if◌then◌else◌}
use tembo.Prelude.Text.{starts_with, strip_prefix}

abbrev size : String → ℕ
size String.[] = 0
size (String.◌∷◌ c s) = suc (size s)

-- The number is that of the characters still to be dropped, of an occurrence that was replaced.
unfoldable pub replace_from : String → String → ℕ → String → String
unfolding strip_prefix
replace_from p t n String.[] = ""
replace_from p t (suc n) (String.◌∷◌ c s) = replace_from p t n s
replace_from String.[] t zero (String.◌∷◌ c s) = String.◌∷◌ c s
replace_from (String.◌∷◌ d p) t zero (String.◌∷◌ c s) =
    let later = replace_from (String.◌∷◌ d p) t (size p) s in
    let kept = String.◌∷◌ c (replace_from (String.◌∷◌ d p) t zero s) in
    if starts_with (String.◌∷◌ d p) (String.◌∷◌ c s) then String.◌++◌ t later else kept

-- `s.replace(p, t)`, of a `p` that is not empty.
unfoldable pub replace : String → String → String → String
unfolding replace_from
replace p t s = replace_from p t 0 s

-- The character at the place that another one has in a text of the same length.
abbrev swap_in : String → String → Char → Char
swap_in (String.◌∷◌ a s) (String.◌∷◌ b t) c = if nat_eq (code a) (code c) then b else swap_in s t c
swap_in _ _ c = c

-- `to_uppercase`
unfoldable pub uppercase : String → String
uppercase String.[] = ""
uppercase (String.◌∷◌ c s) =
    String.◌∷◌ (swap_in "abcdefghijklmnopqrstuvwxyz" "ABCDEFGHIJKLMNOPQRSTUVWXYZ" c) (uppercase s)

replace_test : replace "ab" "x-" "abcabab" ≡ "x-cx-x-"
unfolding replace replace_from strip_prefix
replace_test = refl

uppercase_test : uppercase "my-db1" ≡ "MY-DB1"
unfolding uppercase
uppercase_test = refl
