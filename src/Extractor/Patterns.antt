-- ===== src/Extractor/Patterns.antt =====
-- `classifyUrl` and its parts, of src/extractor/patterns.ts. `new URL(url).pathname` is the parameter
-- `pathname_of`, with no value where the parser throws. Texts are lists of code units.
pub mod Media
use ppvda.Base.{
  ℕ, Bool, true, false, ◌&&◌, ◌||◌, not, List, [], ◌∷◌, ◌++◌, Option, none, some, ◌==◌, leb, any,
  if◌then◌else◌,
}
use ppvda.Base.Text.{Text, codes, equal, lower, is_digit, split}

-- `VideoType` and `MediaType`. `inherited` is what a lookup finds on `Object.prototype`.
pub data MediaType : Type 0 where
  hls dash direct image inherited : MediaType

pub data MediaKind : Type 0 where
  video picture : MediaKind

pub record PatternMatch : Type 0 where
  pub type : MediaType
  pub media_kind : MediaKind
  pub file_extension : Option Text
  pub quality : Option Text

-- A lookup in a table.
pub find : List (Text × MediaType) → Text → Option MediaType
find [] k = none
find ((key, v) ∷ table) k = let rest = find table k in if equal key k then some v else rest

abbrev pub video_extensions : List (Text × MediaType)
video_extensions =
    (codes ".m3u8", hls)
    ∷ (codes ".mpd", dash)
    ∷ (codes ".mp4", direct)
    ∷ (codes ".webm", direct)
    ∷ (codes ".mov", direct)
    ∷ (codes ".avi", direct)
    ∷ (codes ".flv", direct)
    ∷ (codes ".mkv", direct)
    ∷ []

-- The last two rows are the lower-case names that every object inherits.
abbrev pub video_mime_map : List (Text × MediaType)
video_mime_map =
    (codes "application/x-mpegurl", hls)
    ∷ (codes "application/vnd.apple.mpegurl", hls)
    ∷ (codes "audio/mpegurl", hls)
    ∷ (codes "application/dash+xml", dash)
    ∷ (codes "video/mp4", direct)
    ∷ (codes "video/webm", direct)
    ∷ (codes "video/quicktime", direct)
    ∷ (codes "video/x-flv", direct)
    ∷ (codes "video/x-matroska", direct)
    ∷ (codes "constructor", inherited)
    ∷ (codes "__proto__", inherited)
    ∷ []

abbrev pub image_extensions : List Text
image_extensions =
    codes ".jpg"
    ∷ codes ".jpeg"
    ∷ codes ".png"
    ∷ codes ".gif"
    ∷ codes ".webp"
    ∷ codes ".avif"
    ∷ codes ".bmp"
    ∷ codes ".tiff"
    ∷ []

-- `IMAGE_MIME_PREFIXES` and the extension of each.
abbrev pub image_mime_map : List (Text × Text)
image_mime_map =
    (codes "image/jpeg", codes ".jpg")
    ∷ (codes "image/png", codes ".png")
    ∷ (codes "image/gif", codes ".gif")
    ∷ (codes "image/webp", codes ".webp")
    ∷ (codes "image/avif", codes ".avif")
    ∷ (codes "image/bmp", codes ".bmp")
    ∷ (codes "image/tiff", codes ".tiff")
    ∷ []

abbrev pub segment_extensions : List Text
segment_extensions = codes ".ts" ∷ codes ".m4s" ∷ codes ".fmp4" ∷ []

-- The part from the last dot on; nothing where there is no dot.
unfoldable pub from_last_dot : Text → Option Text
from_last_dot [] = none
from_last_dot (c ∷ t) = elim (from_last_dot t) [
  | some e ↦ some e
  | none ↦ if c == b'.' then some (c ∷ t) else none
]

pub extension_of : Option Text → Text
extension_of none = []
extension_of (some e) = lower e

-- `/(\d{3,4})p/i` at the start of a text: four digits are tried before three.
abbrev pub is_p : ℕ → Bool
is_p c = (c == b'p') || (c == b'P')

three_digits : Text → Option Text
three_digits (a ∷ b ∷ c ∷ p ∷ t) =
    if is_digit a && is_digit b && is_digit c && is_p p then some (a ∷ b ∷ c ∷ []) else none
three_digits _ = none

four_digits : Text → Option Text
four_digits (a ∷ b ∷ c ∷ d ∷ p ∷ t) =
    if is_digit a && is_digit b && is_digit c && is_digit d && is_p p
    then some (a ∷ b ∷ c ∷ d ∷ [])
    else none
four_digits _ = none

digits_at : Text → Option Text
unfolding four_digits three_digits
digits_at t = elim (four_digits t) [ some d ↦ some d | none ↦ three_digits t ]

pub first_digits : Text → Option Text
unfolding digits_at
first_digits [] = none
first_digits (c ∷ t) =
    let rest = first_digits t in elim (digits_at (c ∷ t)) [ some d ↦ some d | none ↦ rest ]

-- `/[/_-]xd[/_.-]/i`, for the letter `x`.
abbrev is_separator : ℕ → Bool
is_separator c = (c == b'/') || (c == b'_') || (c == b'-')

has_tag : ℕ → Text → Bool
has_tag x (a ∷ b ∷ c ∷ d ∷ t) =
    is_separator a && equal (lower (b ∷ c ∷ [])) (x ∷ b'd' ∷ []) && (is_separator d || (d == b'.'))
    || has_tag x (b ∷ c ∷ d ∷ t)
has_tag x _ = false

unfoldable pub detect_quality : Text → Option Text
unfolding first_digits has_tag
detect_quality url = elim (first_digits url) [
  | some d ↦ some (d ++ b'p' ∷ [])
  | none ↦
      if has_tag b'h' url
      then some (codes "hd")
      else if has_tag b's' url
      then some (codes "sd")
      else none
]

-- White space as `trim` has it.
abbrev is_space : ℕ → Bool
is_space c =
    leb 9 c && leb c 13
    || (c == 32)
    || (c == 160)
    || (c == 5_760)
    || leb 8_192 c && leb c 8_202
    || (c == 8_232)
    || (c == 8_233)
    || (c == 8_239)
    || (c == 8_287)
    || (c == 12_288)
    || (c == 65_279)

trim_start : Text → Text
trim_start [] = []
trim_start (c ∷ t) = let rest = trim_start t in if is_space c then rest else c ∷ t

trim_end : Text → Text
trim_end [] = []
trim_end (c ∷ t) = elim (trim_end t) [ [] ↦ if is_space c then [] else c ∷ [] | d ∷ u ↦ c ∷ d ∷ u ]

abbrev first_part : List Text → Text
first_part [] = []
first_part (p ∷ ps) = p

-- `contentType.split(';')[0].trim().toLowerCase()`
pub mime_of : Text → Text
unfolding trim_start trim_end
mime_of content_type = lower (trim_end (trim_start (first_part (split b';' content_type))))

-- `extMap[type]`; an inherited value is no key of it.
mime_extension : MediaType → Option Text
mime_extension hls = some (codes ".m3u8")
mime_extension dash = some (codes ".mpd")
mime_extension direct = some (codes ".mp4")
mime_extension _ = none

pub match_by_content_type : Text → Option PatternMatch
unfolding find mime_of mime_extension
match_by_content_type content_type = elim (find video_mime_map (mime_of content_type)) [
  | none ↦ none
  | some t ↦
      some
        (record { type = t; media_kind = video; file_extension = mime_extension t; quality = none })
]

find_image : List (Text × Text) → Text → Option Text
find_image [] k = none
find_image ((key, v) ∷ table) k =
    let rest = find_image table k in if equal key k then some v else rest

abbrev picture_match : Text → PatternMatch
picture_match ext = record {
  type = image;
  media_kind = picture;
  file_extension = some ext;
  quality = none;
}

pub match_image_by_content_type : Text → Option PatternMatch
unfolding find_image mime_of
match_image_by_content_type content_type = elim (find_image image_mime_map (mime_of content_type)) [
  | none ↦ none
  | some ext ↦ some (picture_match ext)
]

-- `contentType ? f(contentType) : null`: the empty text counts as absent.
abbrev pub with_type : (Text → Option PatternMatch) → Option Text → Option PatternMatch
with_type f none = none
with_type f (some []) = none
with_type f (some (c ∷ t)) = f (c ∷ t)

abbrev pub or_else {ℓ} : {A : Type ℓ} → Option A → Option A → Option A
or_else (some a) o = some a
or_else none o = o

abbrev pub with_quality : Option Text → PatternMatch → PatternMatch
with_quality q r = record r { quality = q }

abbrev pub map_match : (PatternMatch → PatternMatch) → Option PatternMatch → Option PatternMatch
map_match f none = none
map_match f (some r) = some (f r)

module _ (pathname_of : Text → Option Text) where
  pub get_url_extension : Text → Text
  unfolding from_last_dot extension_of
  get_url_extension url = elim (pathname_of url) [
    | none ↦ []
    | some pathname ↦ extension_of (from_last_dot pathname)
  ]

  pub match_by_extension : Text → Option PatternMatch
  unfolding get_url_extension find detect_quality
  match_by_extension url = elim (find video_extensions (get_url_extension url)) [
    | none ↦ none
    | some t ↦ some (record {
      type = t;
      media_kind = video;
      file_extension = some (get_url_extension url);
      quality = detect_quality url;
    })
  ]

  pub match_image_by_extension : Text → Option PatternMatch
  unfolding get_url_extension
  match_image_by_extension url =
      if any (equal (get_url_extension url)) image_extensions
      then some (picture_match (get_url_extension url))
      else none

  pub is_segment_url : Text → Bool
  unfolding get_url_extension
  is_segment_url url = any (equal (get_url_extension url)) segment_extensions

  unfoldable pub classify_url : Text → Option Text → Bool → Option PatternMatch
  unfolding match_by_extension match_by_content_type detect_quality match_image_by_extension
      match_image_by_content_type
  classify_url url content_type include_images = or_else (match_by_extension url) (
      or_else
        (map_match (with_quality (detect_quality url))
          (with_type match_by_content_type content_type))
        (if include_images
          then or_else (match_image_by_extension url)
              (with_type match_image_by_content_type content_type)
          else none))

  pub is_direct_media_url : Text → Option PatternMatch
  unfolding get_url_extension find
  is_direct_media_url url = elim (find video_extensions (get_url_extension url)) [
    | some t ↦ some (record {
      type = t;
      media_kind = video;
      file_extension = some (get_url_extension url);
      quality = none;
    })
    | none ↦
        if any (equal (get_url_extension url)) image_extensions
        then some (picture_match (get_url_extension url))
        else none
  ]
