-- ===== src/Downloader/Names/Safe.antt =====
-- The name that a user or a URL gives becomes one safe path segment.
use ppvda.Base.{
  ℕ, true, ◌≤◌, ◌≡◌, ◌&&◌, ◌==◌, [], ◌∷◌, All, All-take, length, length-take-le, Bool-cases, inl,
  inr, if◌then◌else◌, refl,
}
use ppvda.Base.Text.{Text}
use ppvda.Downloader.Names.{is_safe, replace_unsafe, collapse, sanitize_filename}

abbrev pub IsSafe : ℕ → Type 0
IsSafe c = is_safe c ≡ true

replace_unsafe-IsSafe : (t : Text) → All IsSafe (replace_unsafe t)
unfolding replace_unsafe
replace_unsafe-IsSafe [] = tt
replace_unsafe-IsSafe (c ∷ t) = elim (Bool-cases (is_safe c)) [
  | inl e ↦ rw e (e, replace_unsafe-IsSafe t)
  | inr e ↦ rw e (refl, replace_unsafe-IsSafe t)
]

collapse_onto :
    (c : ℕ) (u : Text)
    → IsSafe c
    → All IsSafe u
    → All IsSafe
        (elim u [ [] ↦ c ∷ [] | d ∷ v ↦ if (c == b'_') && (d == b'_') then d ∷ v else c ∷ d ∷ v ])
collapse_onto c [] p h = (p, tt)
collapse_onto c (d ∷ v) p h = elim (Bool-cases ((c == b'_') && (d == b'_'))) [
  | inl e ↦ rw e h
  | inr e ↦ rw e (p, h)
]

collapse-IsSafe : (t : Text) → All IsSafe t → All IsSafe (collapse t)
unfolding collapse
collapse-IsSafe [] h = tt
collapse-IsSafe (c ∷ t) h = collapse_onto c (collapse t) h.0 (collapse-IsSafe t h.1)

-- What `sanitizeFilename` makes of any name has at most 200 characters, each of them a letter, a digit, a
-- dot, an underscore or a dash.
pub sanitize_filename-IsSafe :
    (name : Text) → All IsSafe (sanitize_filename name) × (length (sanitize_filename name) ≤ 200)
unfolding sanitize_filename
sanitize_filename-IsSafe name = (
  All-take IsSafe 200 (collapse (replace_unsafe name))
      (collapse-IsSafe (replace_unsafe name) (replace_unsafe-IsSafe name)),
  length-take-le 200 (collapse (replace_unsafe name)),
)
