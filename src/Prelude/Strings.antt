-- ===== src/Prelude/Strings.antt =====
-- Equality of strings as a test.
use Prim.Native.String.{String}
use text.Mathlib.Text.{◌==◌}
use text.Mathlib.TextEquality.{eq_iff}
use mathlib.Core.Path.{◌≡◌, refl}
use mathlib.Core.Bool.{Bool, true}

abbrev pub same_string : String → String → Bool
same_string a b = a == b

pub same_string_refl : (a : String) → same_string a a ≡ true
same_string_refl a = (eq_iff a a).1 refl

pub same_string→≡ : (a b : String) → same_string a b ≡ true → a ≡ b
same_string→≡ a b h = (eq_iff a b).0 h
