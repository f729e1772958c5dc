-- ===== src/Prelude/Text.antt =====
-- Texts: equality and order by code points, the BINARY collation of SQLite.
use Prim.Native.Nat.{compare, Ordering}
use Prim.Native.Char.{code}
use Prim.Native.String.{String}
use native.Mathlib.Omega.{arith}
use mathlib.Core.Path.{◌≡◌, refl}
use mathlib.Core.Bool.{Bool, true, false}
use text.Mathlib.Text.{◌==◌}
use text.Mathlib.TextPositions.{eq_refl}

abbrev pub str_eq : String → String → Bool
str_eq a b = a == b

pub str_eq_refl : (a : String) → str_eq a a ≡ true
str_eq_refl a = eq_refl a

-- Python's truth of a text: `""` is false.
abbrev pub is_truthy : String → Bool
is_truthy String.[] = false
is_truthy (String.◌∷◌ c s) = true

abbrev pub text_ltb : String → String → Bool
text_ltb String.[] String.[] = false
text_ltb String.[] (String.◌∷◌ d t) = true
text_ltb (String.◌∷◌ c s) String.[] = false
text_ltb (String.◌∷◌ c s) (String.◌∷◌ d t) = elim (compare (code c) (code d)) [
  | Ordering.lt ↦ true
  | Ordering.eq ↦ text_ltb s t
  | Ordering.gt ↦ false
]

pub text_ltb-asymmetric : (a b : String) → text_ltb a b ≡ true → text_ltb b a ≡ false
text_ltb-asymmetric String.[] String.[] e = refl
text_ltb-asymmetric String.[] (String.◌∷◌ d t) e = refl
text_ltb-asymmetric (String.◌∷◌ c s) String.[] e = absurd cc
text_ltb-asymmetric (String.◌∷◌ c s) (String.◌∷◌ d t) e = ground (arith, e, text_ltb-asymmetric s t)

-- A text that is not below `b` is not below a text that `b` is not below.
pub text_ltb-transitive :
    (a b c : String) → text_ltb a b ≡ false → text_ltb b c ≡ false → text_ltb a c ≡ false
text_ltb-transitive String.[] b String.[] h k = refl
text_ltb-transitive (String.◌∷◌ x s) b String.[] h k = refl
text_ltb-transitive String.[] String.[] c h k = k
text_ltb-transitive String.[] (String.◌∷◌ d t) c h k = absurd cc
text_ltb-transitive (String.◌∷◌ x s) String.[] (String.◌∷◌ z u) h k = absurd cc
text_ltb-transitive (String.◌∷◌ x s) (String.◌∷◌ y t) (String.◌∷◌ z u) h k =
    ground (arith, h, k, text_ltb-transitive s t u)
