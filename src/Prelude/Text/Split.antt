-- ===== src/Prelude/Text/Split.antt =====
-- Splitting a joined text at its separator gives the parts back.
use Prim.Native.Nat.{ℕ}
use Prim.Native.Char.{Char, code}
use Prim.Native.String
use Prim.Native.String.{String}
use mathlib.Core.Path.{◌≡◌, refl}
use mathlib.Core.Bool.{true, false}
use mathlib.Core.List.{List, [], ◌∷◌}
use text.Mathlib.TextLemmas.{nil-append, cons-append}
use tembo.Prelude.Tests.{nat_eq}
use tembo.Prelude.Lists.{All}
use tembo.Prelude.Text.{split_char, join}

-- The character does not stand in the text.
abbrev pub Without : ℕ → String → Type 0
Without sep String.[] = Unit
Without sep (String.◌∷◌ c s) = (nat_eq (code c) sep ≡ false) × Without sep s

-- No comma in the text.
abbrev pub IsPart : String → Type 0
IsPart = Without b','

split_of_Without : (sep : ℕ) (w : String) → Without sep w → split_char sep w ≡ w ∷ []
unfolding split_char
split_of_Without sep String.[] h = refl
split_of_Without sep (String.◌∷◌ c s) (h, k) = rw (h, split_of_Without sep s k, split_char)

-- A part is followed by the separator.
pub split-append :
    (sep : Char) (w r : String)
    → Without (code sep) w
    → nat_eq (code sep) (code sep) ≡ true
    → split_char (code sep) (String.◌++◌ w (String.◌∷◌ sep r)) ≡ w ∷ split_char (code sep) r
unfolding split_char
split-append sep String.[] r h e = rw nil-append (rw (e, split_char) refl)
split-append sep (String.◌∷◌ c s) r (h, k) e =
    rw cons-append (rw (h, split-append sep s r k e, split_char))

split-append_comma :
    (w r : String)
    → IsPart w
    → split_char b',' (String.◌++◌ w (String.◌++◌ "," r)) ≡ w ∷ split_char b',' r
split-append_comma w r h = rw (cons-append, nil-append) (split-append "," w r h refl)

pub split-join :
    (w : String) (ws : List String)
    → All IsPart (w ∷ ws)
    → split_char b',' (join "," (w ∷ ws)) ≡ w ∷ ws
unfolding join
split-join w [] (h, k) = split_of_Without b',' w h
split-join w (v ∷ vs) (h, k) =
    rw (split-append_comma w (join "," (v ∷ vs)) h) (rw (split-join v vs k))
