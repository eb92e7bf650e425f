-- ===== src/Auth/Texts.antt =====
-- Python's `str.split` on one character and `int`, on texts as lists of code points (ASCII only).
use open_tela.Prelude.{
  ℕ, zero, suc, not, ◌+◌, ◌-◌, ◌*◌, Bool, true, false, ◌&&◌, ◌||◌, List, [], ◌∷◌, Option, none,
  some, leb, nat_beq, if◌then◌else◌, ◌≡◌, ◌↔◌, refl, Eq, arith, nat_beq_iff,
}
use open_tela.Simulator.Config.{ℤ, pos, negsuc}

abbrev pub Text : Type 0
Text = List ℕ

-- A character that goes to the first of the parts.
abbrev pub onto_first : ℕ → List Text → List Text
onto_first c [] = (c ∷ []) ∷ []
onto_first c (p ∷ ps) = (c ∷ p) ∷ ps

-- `s.split(sep)`
unfoldable pub split : ℕ → Text → List Text
split sep [] = [] ∷ []
split sep (c ∷ s) = if nat_beq c sep then [] ∷ split sep s else onto_first c (split sep s)

abbrev pub is_space : ℕ → Bool
is_space c = nat_beq c 32 || leb 9 c && leb c 13 || leb 28 c && leb c 31

abbrev pub is_digit : ℕ → Bool
is_digit c = leb b'0' c && leb c b'9'

unfoldable pub all_space : Text → Bool
all_space [] = true
all_space (c ∷ s) = is_space c && all_space s

unfoldable pub skip_space : Text → Text
skip_space [] = []
skip_space (c ∷ s) = if is_space c then skip_space s else c ∷ s

-- The digits of a number, read from the left: `wanted` says that a digit has to come next, as it does
-- at the start and after an underscore. Spaces may stand at the end.
unfoldable pub digits : ℕ → Bool → Text → Option ℕ
unfolding all_space
digits n wanted [] = if wanted then none else some n
digits n wanted (c ∷ s) =
    let rest = digits (if is_digit c then n * 10 + (c - b'0') else n) (not (is_digit c)) s in
    if is_digit c || nat_beq c b'_' && not wanted
    then rest
    else if not wanted && all_space (c ∷ s)
    then some n
    else none

abbrev negative : Option ℕ → Option ℤ
negative none = none
negative (some zero) = some (pos 0)
negative (some (suc n)) = some (negsuc n)

abbrev positive : Option ℕ → Option ℤ
positive none = none
positive (some n) = some (pos n)

abbrev signed : Text → Option ℤ
unfolding digits
signed [] = none
signed (c ∷ s) =
    if nat_beq c b'-'
    then negative (digits 0 true s)
    else if nat_beq c b'+'
    then positive (digits 0 true s)
    else positive (digits 0 true (c ∷ s))

-- `int(s)`; `none` is the ValueError.
unfoldable pub parse_int : Text → Option ℤ
unfolding skip_space digits
parse_int s = signed (skip_space s)

abbrev pub text_beq : Text → Text → Bool
text_beq [] [] = true
text_beq [] (d ∷ t) = false
text_beq (c ∷ s) [] = false
text_beq (c ∷ s) (d ∷ t) = nat_beq c d && text_beq s t

pub text_beq_iff : (s t : Text) → (text_beq s t ≡ true) ↔ (s ≡ t)
text_beq_iff [] [] = (λ h. refl, λ h. refl)
text_beq_iff [] (d ∷ t) = (λ h. cc, λ h. cc)
text_beq_iff (c ∷ s) [] = (λ h. cc, λ h. cc)
text_beq_iff (c ∷ s) (d ∷ t) = grind (arith, text_beq_iff s t, nat_beq_iff c d)

instance abbrev pub text_eq : Eq Text
text_eq = record { beq = text_beq; beq_iff = text_beq_iff }
