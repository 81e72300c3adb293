-- ===== src/Text/Order.antt =====
-- The order of Go's strings: by their bytes, which is the order of the characters' numbers in UTF-8.
use text.Mathlib.TextEquality.{codes_equal}
use mathlib.Core.Path.{ap₂}
use openriak_operator.Prelude.{
  String, code, Bool, true, false, ◌&&◌, ◌||◌, ltb, eqb, ◌≡◌, refl, arith,
}

-- s < t
unfoldable pub text_lt : String → String → Bool
text_lt s String.[] = false
text_lt String.[] (String.◌∷◌ d t) = true
text_lt (String.◌∷◌ c s) (String.◌∷◌ d t) =
    ltb (code c) (code d) || (eqb (code c) (code d) && text_lt s t)

pub text_lt_asymm : (s t : String) → text_lt s t ≡ true → text_lt t s ≡ false
unfolding text_lt
text_lt_asymm String.[] String.[] h = refl
text_lt_asymm (String.◌∷◌ c s) String.[] h = ground (arith, h)
text_lt_asymm String.[] (String.◌∷◌ d t) h = refl
text_lt_asymm (String.◌∷◌ c s) (String.◌∷◌ d t) h = ground (arith, h, text_lt_asymm s t)

pub text_lt_trans : (s t u : String) → text_lt s t ≡ true → text_lt t u ≡ true → text_lt s u ≡ true
unfolding text_lt
text_lt_trans s String.[] u h k = absurd (ground (arith, h))
text_lt_trans s (String.◌∷◌ d t) String.[] h k = absurd (ground (arith, k))
text_lt_trans String.[] (String.◌∷◌ d t) (String.◌∷◌ e u) h k = refl
text_lt_trans (String.◌∷◌ c s) (String.◌∷◌ d t) (String.◌∷◌ e u) h k =
    ground (arith, h, k, text_lt_trans s t u)

-- Two texts of which neither is less are equal.
pub text_lt_total : (s t : String) → text_lt s t ≡ false → text_lt t s ≡ false → s ≡ t
unfolding text_lt
text_lt_total String.[] String.[] h k = refl
text_lt_total (String.◌∷◌ c s) String.[] h k = absurd (ground (arith, k))
text_lt_total String.[] (String.◌∷◌ d t) h k = absurd (ground (arith, h))
text_lt_total (String.◌∷◌ c s) (String.◌∷◌ d t) h k =
    let same : code c ≡ code d = ground (arith, h, k) in
    ap₂ String.◌∷◌ (codes_equal c d (ground (arith, same)))
      (text_lt_total s t (ground (arith, same, h)) (ground (arith, same, k)))
