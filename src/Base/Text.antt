-- ===== src/Base/Text.antt =====
-- Texts that the program walks, as lists of code units.
use Prim.Native.Char.{code}
use Prim.Native.Nat.{ℕ, ◌+◌}
use Prim.Native.String.{String}
use mathlib.Core.Path.{◌≡◌}
use mathlib.Core.Logic.{◌↔◌}
use mathlib.Core.Bool.{Bool, true, false, ◌&&◌, ◌||◌}
use mathlib.Core.List.{List, [], ◌∷◌, map}
use native.Mathlib.Omega.{arith}
use ppvda.Base.Tests.{leb, ◌==◌, if◌then◌else◌}

abbrev pub Text : Type 0
Text = List ℕ

abbrev pub codes : String → Text
codes String.[] = []
codes (String.◌∷◌ c s) = code c ∷ codes s

abbrev pub equal : Text → Text → Bool
equal [] [] = true
equal (a ∷ s) (b ∷ t) = (a == b) && equal s t
equal _ _ = false

abbrev pub starts_with : Text → Text → Bool
starts_with [] t = true
starts_with (a ∷ s) [] = false
starts_with (a ∷ s) (b ∷ t) = (a == b) && starts_with s t

-- `t.endsWith(s)`
abbrev pub ends_with : Text → Text → Bool
ends_with s [] = equal s []
ends_with s (b ∷ t) = equal s (b ∷ t) || ends_with s t

abbrev pub is_digit : ℕ → Bool
is_digit c = leb b'0' c && leb c b'9'

abbrev pub is_lower : ℕ → Bool
is_lower c = leb b'a' c && leb c b'z'

abbrev pub is_upper : ℕ → Bool
is_upper c = leb b'A' c && leb c b'Z'

-- `\s`
abbrev pub is_white : ℕ → Bool
is_white c =
    leb 9 c && leb c 13
    || (c == 32)
    || (c == 160)
    || (c == 5_760)
    || leb 8_192 c && leb c 8_202
    || (c == 8_232)
    || (c == 8_233)
    || (c == 8_239)
    || (c == 8_287)
    || (c == 12_288)
    || (c == 65_279)

-- `toLowerCase` on ASCII; other code units stay as they are.
abbrev pub lower_code : ℕ → ℕ
lower_code c = if is_upper c then c + 32 else c

abbrev pub lower : Text → Text
lower = map lower_code

-- A part at the head of the parts.
abbrev pub onto : ℕ → List Text → List Text
onto c [] = (c ∷ []) ∷ []
onto c (p ∷ ps) = (c ∷ p) ∷ ps

-- `t.split(c)` at a single character.
unfoldable pub split : ℕ → Text → List Text
split c [] = [] ∷ []
split c (x ∷ t) = let rest = split c t in if x == c then [] ∷ rest else onto x rest

pub equal_iff : (s t : Text) → (equal s t ≡ true) ↔ (s ≡ t)
equal_iff [] [] = ground arith
equal_iff [] (b ∷ t) = ground arith
equal_iff (a ∷ s) [] = ground arith
equal_iff (a ∷ s) (b ∷ t) = ground (arith, equal_iff s t)
