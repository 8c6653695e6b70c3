-- ===== src/Base/Texts.antt =====
-- Equality tests on texts, for the identifiers that the program only compares.
pub use text.Mathlib.Text.{◌==◌ as str_eq}
pub use text.Mathlib.TextEquality.{eq_iff}
pub use text.Mathlib.TextPositions.{eq_refl}
pub use Prim.Native.String.{String}
use Prim.Native.Char.{code}
use Prim.Native.Nat.{ℕ}
use mathlib.Core.List.{List, [], ◌∷◌, head-eq_of_cons-eq, tail-eq_of_cons-eq}
use mathlib.Core.Path.{◌≡◌, refl, ap₂}
use text.Mathlib.TextEquality.{Char-path}

-- The code points of a text.
abbrev pub codes : String → List ℕ
codes String.[] = []
codes (String.◌∷◌ c s) = code c ∷ codes s

pub codes_inj : (s t : String) → codes s ≡ codes t → s ≡ t
codes_inj String.[] String.[] e = refl
codes_inj String.[] (String.◌∷◌ c t) e = cc
codes_inj (String.◌∷◌ c s) String.[] e = cc
codes_inj (String.◌∷◌ c s) (String.◌∷◌ d t) e =
    ap₂ String.◌∷◌ (Char-path c d (head-eq_of_cons-eq e)) (codes_inj s t (tail-eq_of_cons-eq e))
