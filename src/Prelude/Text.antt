-- ===== src/Prelude/Text.antt =====
-- Python's `str.lower`, `in` and `==` on texts, as lists of code points (ASCII letters only).
use Prim.Native.Nat.{ℕ, ◌+◌}
use Prim.Native.String.{String}
use Prim.Native.Char.{code}
use mathlib.Core.Bool.{Bool, true, false, ◌&&◌, ◌||◌}
use mathlib.Core.List.{List, [], ◌∷◌, map}
use open_tela.Prelude.Tests.{leb, nat_beq, if◌then◌else◌}

abbrev pub codes : String → List ℕ
codes String.[] = []
codes (String.◌∷◌ c s) = code c ∷ codes s

abbrev pub lower_code : ℕ → ℕ
lower_code c = if leb b'A' c && leb c b'Z' then c + 32 else c

unfoldable pub lower : List ℕ → List ℕ
lower s = map lower_code s

unfoldable pub is_prefix : List ℕ → List ℕ → Bool
is_prefix [] s = true
is_prefix (c ∷ p) [] = false
is_prefix (c ∷ p) (d ∷ s) = nat_beq c d && is_prefix p s

-- `p in s`
unfoldable pub occurs_in : List ℕ → List ℕ → Bool
unfolding is_prefix
occurs_in p [] = is_prefix p []
occurs_in p (d ∷ s) = is_prefix p (d ∷ s) || occurs_in p s
