-- ===== src/Downloader/Select.antt =====
-- `selectBestVideo` of src/downloader/index.ts. A quality is a number of any size.
pub mod Best
use ppvda.Base.{
  ℕ, ◌+◌, ◌-◌, ◌*◌, Bool, true, false, List, [], ◌∷◌, Option, none, some, ◌==◌, ltb, leb,
  if◌then◌else◌,
}
use ppvda.Base.Text.{Text, is_digit}
use ppvda.Base.Sort.{sort_by}
use ppvda.Extractor.Patterns.{MediaType, hls, dash, direct, image, inherited}

-- The fields that the choice reads.
pub record VideoEntry : Type 0 where
  pub url : Text
  pub type : MediaType
  pub quality : Option Text

-- `typeOrder[type] ?? 3`
pub type_order : MediaType → ℕ
type_order hls = 0
type_order dash = 1
type_order direct = 2
type_order _ = 3

-- `parseInt` of the digits that a text starts with.
leading_number : ℕ → Text → ℕ
leading_number n [] = n
leading_number n (c ∷ t) =
    let rest = leading_number (n * 10 + (c - b'0')) t in if is_digit c then rest else n

first_number : Text → ℕ
unfolding leading_number
first_number [] = 0
first_number (c ∷ t) =
    let rest = first_number t in if is_digit c then leading_number 0 (c ∷ t) else rest

pub parse_quality : Option Text → ℕ
unfolding first_number
parse_quality none = 0
parse_quality (some q) = first_number q

-- The comparison of the sort gives at most zero.
pub at_least_as_good : VideoEntry → VideoEntry → Bool
unfolding type_order parse_quality
at_least_as_good a b =
    if type_order a.type == type_order b.type
    then leb (parse_quality b.quality) (parse_quality a.quality)
    else ltb (type_order a.type) (type_order b.type)

head : List VideoEntry → Option VideoEntry
head [] = none
head (v ∷ vs) = some v

unfoldable pub select_best_video : List VideoEntry → Option VideoEntry
unfolding head at_least_as_good
select_best_video videos = head (sort_by at_least_as_good videos)
