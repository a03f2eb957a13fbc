-- ===== src/Prelude/Order.antt =====
-- Go's order of strings, by their bytes, which is the order by code points; and lists that ascend.
use Prim.Native.Char.{code}
use Prim.Native.String.{String}
use mathlib.Core.Path.{◌≡◌, refl}
use mathlib.Core.Bool.{Bool, true, false, ◌&&◌, ◌||◌}
use native.Mathlib.Omega.{arith}
use text.Mathlib.TextEquality.{Char-path}
use hotload.Prelude.Tests.{ltb, ◌==◌}

-- `s < t`
unfoldable pub str_ltb : String → String → Bool
str_ltb s String.[] = false
str_ltb String.[] (String.◌∷◌ d t) = true
str_ltb (String.◌∷◌ c s) (String.◌∷◌ d t) =
    ltb (code c) (code d) || (code c == code d && str_ltb s t)

pub str_ltb_irrefl : (s : String) → str_ltb s s ≡ false
unfolding str_ltb
str_ltb_irrefl String.[] = refl
str_ltb_irrefl (String.◌∷◌ c s) = ground (arith, str_ltb_irrefl s)

pub str_ltb_trans : (s t u : String) → str_ltb s t ≡ true → str_ltb t u ≡ true → str_ltb s u ≡ true
unfolding str_ltb
str_ltb_trans s t String.[] p q = ground arith
str_ltb_trans s String.[] (String.◌∷◌ e u) p q = ground arith
str_ltb_trans String.[] (String.◌∷◌ d t) (String.◌∷◌ e u) p q = refl
str_ltb_trans (String.◌∷◌ c s) (String.◌∷◌ d t) (String.◌∷◌ e u) p q =
    ground (arith, str_ltb_trans s t u)

pub str_ltb_total : (s t : String) → str_ltb s t ≡ false → str_ltb t s ≡ false → s ≡ t
unfolding str_ltb
str_ltb_total String.[] String.[] p q = refl
str_ltb_total String.[] (String.◌∷◌ d t) p q = ground arith
str_ltb_total (String.◌∷◌ c s) String.[] p q = ground arith
str_ltb_total (String.◌∷◌ c s) (String.◌∷◌ d t) p q =
    ground (arith, str_ltb_total s t, Char-path c d)
