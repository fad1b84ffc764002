-- ===== src/Downloader/Names.antt =====
-- The names of the downloaded files, of src/downloader/index.ts. `new URL(url).pathname` is the
-- parameter `pathname_of`, and the random id is the argument `id`.
pub mod Safe
use ppvda.Base.{
  ℕ, Bool, true, false, ◌&&◌, ◌||◌, List, [], ◌∷◌, ◌++◌, Option, none, some, ◌==◌, leb,
  if◌then◌else◌, length, take, all, map,
}
use ppvda.Base.Text.{Text, codes, lower, split, is_digit, is_lower, is_upper}
use ppvda.Extractor.Patterns.{MediaType, image, direct, from_last_dot}

-- `/^\.[a-z0-9]{1,5}$/`
abbrev is_extension : Text → Bool
is_extension [] = false
is_extension (c ∷ t) =
    (c == b'.') && leb 1 (length t) && leb (length t) 5 && all (λ x. is_lower x || is_digit x) t

ext_of_path : Text → Option Text → Text
ext_of_path fallback none = fallback
ext_of_path fallback (some e) = if is_extension (lower e) then lower e else fallback

-- The text before the last dot, or all of it.
pub before_last_dot : Text → Option Text
before_last_dot [] = none
before_last_dot (c ∷ t) = elim (before_last_dot t) [
  | some u ↦ some (c ∷ u)
  | none ↦ if c == b'.' then some [] else none
]

-- `pathname.split('/').filter(Boolean)`
pub segments : List Text → List Text
segments [] = []
segments ([] ∷ ps) = segments ps
segments ((c ∷ t) ∷ ps) = (c ∷ t) ∷ segments ps

last_segment : List Text → Option Text
last_segment [] = none
last_segment (p ∷ ps) = elim (last_segment ps) [ some q ↦ some q | none ↦ some p ]

stem : Text → Text
unfolding before_last_dot
stem last = elim (before_last_dot last) [ some u ↦ u | none ↦ last ]

name_of_segment : Text → Option Text → Text
unfolding stem
name_of_segment id none = codes "video-" ++ id
name_of_segment id (some last) = stem last

-- `[a-zA-Z0-9._-]`
abbrev pub is_safe : ℕ → Bool
is_safe c = is_lower c || is_upper c || is_digit c || (c == b'.') || (c == b'_') || (c == b'-')

pub replace_unsafe : Text → Text
replace_unsafe [] = []
replace_unsafe (c ∷ t) = (if is_safe c then c else b'_') ∷ replace_unsafe t

-- `replace(/_+/g, '_')`
pub collapse : Text → Text
collapse [] = []
collapse (c ∷ t) = elim (collapse t) [
  | [] ↦ c ∷ []
  | d ∷ u ↦ if (c == b'_') && (d == b'_') then d ∷ u else c ∷ d ∷ u
]

unfoldable pub sanitize_filename : Text → Text
unfolding replace_unsafe collapse
sanitize_filename name = take 200 (collapse (replace_unsafe name))

module _ (pathname_of : Text → Option Text) where
  pub ext_from_url : Text → Text → Text
  unfolding ext_of_path from_last_dot
  ext_from_url url fallback = elim (pathname_of url) [
    | none ↦ fallback
    | some pathname ↦ ext_of_path fallback (from_last_dot pathname)
  ]

  pub filename_from_url : Text → Text → Text
  unfolding name_of_segment last_segment segments
  filename_from_url url id = elim (pathname_of url) [
    | none ↦ codes "video-" ++ id
    | some pathname ↦ name_of_segment id (last_segment (segments (split b'/' pathname)))
  ]

  -- The extension of the file, by the type.
  pub file_extension : MediaType → Text → Text
  unfolding ext_from_url
  file_extension image url = ext_from_url url (codes ".jpg")
  file_extension direct url = ext_from_url url (codes ".mp4")
  file_extension _ url = codes ".mp4"

  pub final_filename : MediaType → Text → Option Text → Text → Text
  unfolding filename_from_url file_extension
  final_filename type url none id =
      sanitize_filename (filename_from_url url id) ++ file_extension type url
  final_filename type url (some name) id = sanitize_filename name ++ file_extension type url
