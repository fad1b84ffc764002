-- ===== src/Auth/Password.antt =====
-- The rules for passwords and user names of src/crypto/index.ts. A text is its code units; a character
-- outside the plane of 16 bits counts as two symbols, where the source takes it as one.
use ppvda.Base.{ℕ, Bool, true, false, ◌&&◌, ◌||◌, not, [], ◌∷◌, leb, if◌then◌else◌, length, all}
use ppvda.Base.Text.{Text, is_white, is_digit, is_lower, is_upper}

abbrev is_letter : ℕ → Bool
is_letter c = is_lower c || is_upper c

-- The loop, with the three flags.
pub has_classes : Bool → Bool → Bool → Text → Bool
has_classes letter number symbol [] = letter && number && symbol
has_classes letter number symbol (c ∷ t) =
    let on_letter = has_classes true number symbol t in
    let on_digit = has_classes letter true symbol t in
    let on_symbol = has_classes letter number true t in
    if is_letter c
    then on_letter
    else if is_digit c
    then on_digit
    else if is_white c
    then false
    else on_symbol

unfoldable pub is_strong_password : Text → Bool
unfolding has_classes
is_strong_password pw =
    if not (leb 16 (length pw)) || not (leb (length pw) 128)
    then false
    else has_classes false false false pw

unfoldable pub is_valid_username : Text → Bool
is_valid_username u =
    if not (leb 3 (length u)) || not (leb (length u) 64)
    then false
    else all (λ c. is_letter c || is_digit c) u
