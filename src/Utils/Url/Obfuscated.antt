-- ===== src/Utils/Url/Obfuscated.antt =====
-- Which hosts made of numbers pass for IPv4 addresses.
use ppvda.Base.{
  dec_le, ◌↔◌, All, Bool-cases, all, length, ◌==◌, ℕ, ◌≤◌, ◌≡◌, refl, ap, ◌⊎◌, inl, inr, true,
  false, List, [], ◌∷◌, arith,
}
use ppvda.Base.Text.{onto, starts_with, Text, split, is_digit}
use ppvda.Utils.Url.{
  is_bracketed, is_obfuscated_ipv4, not_empty, has_odd_part, is_number, is_digits,
}

-- A decimal number without a leading zero.
abbrev pub IsCanonical : Text → Type 0
IsCanonical p = (is_digits p ≡ true) × ((length p ≡ 1) ⊎ (starts_with (b'0' ∷ []) p ≡ false))

even-IsCanonical :
    (ps : List Text) → all is_number ps ≡ true → has_odd_part ps ≡ false → All IsCanonical ps
unfolding has_odd_part is_number
even-IsCanonical [] n h = tt
even-IsCanonical ([] ∷ ps) n h = absurd (ground arith)
even-IsCanonical ((c ∷ []) ∷ ps) n h =
    ((ground arith, inl refl), even-IsCanonical ps (ground arith) (ground arith))
even-IsCanonical ((c ∷ d ∷ p) ∷ ps) n h =
    ((ground arith, inr (ground arith)), even-IsCanonical ps (ground arith) (ground arith))

IsCanonical-even : (ps : List Text) → All IsCanonical ps → has_odd_part ps ≡ false
unfolding has_odd_part
IsCanonical-even [] h = refl
IsCanonical-even ([] ∷ ps) h = cc (h.0.0)
IsCanonical-even ((c ∷ []) ∷ ps) h = ground (arith, IsCanonical-even ps h.1)
IsCanonical-even ((c ∷ d ∷ p) ∷ ps) h = ground (arith, IsCanonical-even ps h.1)

all-not_empty : (ps : List Text) → all is_number ps ≡ true → all not_empty ps ≡ true
unfolding is_number
all-not_empty [] h = refl
all-not_empty ([] ∷ ps) h = cc
all-not_empty ((c ∷ p) ∷ ps) h = ground (arith, all-not_empty ps)

length-split_pos : (c : ℕ) (t : Text) → 1 ≤ length (split c t)
unfolding split
length-split_pos c [] = omega arith
length-split_pos c (x ∷ t) = ground (arith, length-split_pos c t)

onto_single :
    (x : ℕ) (t : Text) (ps : List Text)
    → (length ps ≡ 1 → ps ≡ t ∷ [])
    → 1 ≤ length ps
    → length (onto x ps) ≡ 1
    → onto x ps ≡ (x ∷ t) ∷ []
onto_single x t [] f h e = absurd (omega arith)
onto_single x t (p ∷ []) f h e = ap (onto x) (f refl)
onto_single x t (p ∷ q ∷ ps) f h e = absurd (omega arith)

split_single : (c : ℕ) (t : Text) → length (split c t) ≡ 1 → split c t ≡ t ∷ []
unfolding split
split_single c [] h = refl
split_single c (x ∷ t) h = elim (Bool-cases (x == c)) [
  | inl at ↦ absurd (ground (arith, length-split_pos c t))
  | inr other ↦
      rw other
        (onto_single x t (split c t) (split_single c t) (length-split_pos c t) (rw other at h))
]

split_digits : (t : Text) → all is_digit t ≡ true → split b'.' t ≡ t ∷ []
unfolding split
split_digits [] h = refl
split_digits (x ∷ t) h = ground (arith, split_digits t)

digits-split : (h : Text) → is_digits h ≡ true → 2 ≤ length (split b'.' h) → ⊥
digits-split [] d two = cc
digits-split (c ∷ t) d two = omega (arith, ap length (split_digits (c ∷ t) d))

-- The parts of a number that stands alone.
odd_of_single : (h : Text) → is_number h ≡ true → is_digits h ≡ false → has_odd_part (h ∷ []) ≡ true
unfolding is_number has_odd_part
odd_of_single h n d = ground arith

obfuscated_sound :
    (h : Text)
    → is_bracketed h ≡ false
    → length (split b'.' h) ≤ 4
    → all is_number (split b'.' h) ≡ true
    → is_obfuscated_ipv4 h ≡ false
    → All IsCanonical (split b'.' h) × (2 ≤ length (split b'.' h))
unfolding is_obfuscated_ipv4
obfuscated_sound h b few numbers o =
    let even : has_odd_part (split b'.' h) ≡ false =
      ground (arith, length-split_pos b'.' h, all-not_empty (split b'.' h) numbers) in
    (
      even-IsCanonical (split b'.' h) numbers even,
      elim (dec_le 2 (length (split b'.' h))) [
        | yes two ↦ two
        | no one ↦
            let alone = split_single b'.' h (omega (arith, length-split_pos b'.' h)) in
            absurd (ground (arith, odd_of_single h (ground (arith, alone)), ap has_odd_part alone))
      ],
    )

obfuscated_complete :
    (h : Text)
    → All IsCanonical (split b'.' h)
    → 2 ≤ length (split b'.' h)
    → is_obfuscated_ipv4 h ≡ false
unfolding is_obfuscated_ipv4
obfuscated_complete h c two = elim (Bool-cases (is_digits h)) [
  | inl d ↦ absurd (digits-split h d two)
  | inr d ↦ ground (arith, IsCanonical-even (split b'.' h) c)
]

-- A host with no brackets whose dot-separated parts, at most four, are all decimal or hexadecimal
-- numbers passes the check for disguised IPv4 addresses exactly if it has at least two parts and
-- each is a decimal number without a leading zero.
pub is_obfuscated_ipv4_iff :
    (h : Text)
    → is_bracketed h ≡ false
    → length (split b'.' h) ≤ 4
    → all is_number (split b'.' h) ≡ true
    → (is_obfuscated_ipv4 h ≡ false)
      ↔ (All IsCanonical (split b'.' h) × (2 ≤ length (split b'.' h)))
is_obfuscated_ipv4_iff h b few numbers =
    (obfuscated_sound h b few numbers, λ c. obfuscated_complete h c.0 c.1)
