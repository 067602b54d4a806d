-- ===== src/Prelude/Text/Prefix.antt =====
-- What `strip_prefix` answers.
use Prim.Native.Char.{Char, code}
use Prim.Native.String
use Prim.Native.String.{String}
use mathlib.Core.Path.{◌≡◌, refl}
use mathlib.Core.Bool.{true, false}
use mathlib.Core.Option.{none, some}
use native.Mathlib.Omega.{arith}
use text.Mathlib.TextLemmas.{nil-append, cons-append}
use tembo.Prelude.Tests.{nat_eq}
use tembo.Prelude.Text.{strip_prefix}

nat_eq_refl : (c : Char) → nat_eq (code c) (code c) ≡ true
nat_eq_refl c = ground arith

-- A prefix that was put before a text is stripped from it.
pub strip_prefix-append : (p s : String) → strip_prefix p (String.◌++◌ p s) ≡ some s
unfolding strip_prefix
strip_prefix-append String.[] s = rw nil-append refl
strip_prefix-append (String.◌∷◌ c p) s =
    rw cons-append (rw (nat_eq_refl c, strip_prefix) (strip_prefix-append p s))

-- A text without the first character of the prefix does not start with it.
pub strip_prefix-other :
    (c d : Char) (p s : String)
    → nat_eq (code d) (code c) ≡ false
    → strip_prefix (String.◌∷◌ c p) (String.◌∷◌ d s) ≡ none
unfolding strip_prefix
strip_prefix-other c d p s h = rw h

-- What stands before both texts does not matter.
pub strip_prefix-append_both :
    (p q s : String) → strip_prefix (String.◌++◌ p q) (String.◌++◌ p s) ≡ strip_prefix q s
unfolding strip_prefix
strip_prefix-append_both String.[] q s = rw (nil-append q, nil-append s) refl
strip_prefix-append_both (String.◌∷◌ c p) q s =
    rw (cons-append c p q, cons-append c p s)
      (rw (nat_eq_refl c, strip_prefix) (strip_prefix-append_both p q s))
