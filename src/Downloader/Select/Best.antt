-- ===== src/Downloader/Select/Best.antt =====
-- What the chosen video is among the videos of a page.
use ppvda.Base.{true, false, List, [], ◌∷◌, some, ◌≡◌, refl, arith, All, inr, ◌≤◌, ◌<◌, ◌⊎◌, subst}
use ppvda.Base.Sort.{sort_by, IsSorted, sort_by-IsSorted, All-sort_by}
use ppvda.Downloader.Select.{
  VideoEntry, type_order, parse_quality, at_least_as_good, head, select_best_video,
}

at_least_as_good_total :
    (a b : VideoEntry) → at_least_as_good a b ≡ false → at_least_as_good b a ≡ true
unfolding at_least_as_good
at_least_as_good_total a b h = ground arith

-- A better type, or the same type and no lower quality.
pub IsAtLeast : VideoEntry → VideoEntry → Type 0
IsAtLeast a b =
    (type_order a.type < type_order b.type)
    ⊎ ((type_order a.type ≡ type_order b.type)
        × (parse_quality b.quality ≤ parse_quality a.quality))

at_least_as_good-IsAtLeast : (a b : VideoEntry) → at_least_as_good a b ≡ true → IsAtLeast a b
unfolding at_least_as_good IsAtLeast
at_least_as_good-IsAtLeast a b h = ground arith

IsAtLeast-self : (a : VideoEntry) → IsAtLeast a a
unfolding IsAtLeast
IsAtLeast-self a = inr (refl, omega arith)

IsAtLeast-trans : (a b c : VideoEntry) → IsAtLeast a b → IsAtLeast b c → IsAtLeast a c
unfolding IsAtLeast
IsAtLeast-trans a b c h k = ground arith

-- The first entry of a sorted list is at least as good as the others.
IsSorted-head :
    (a : VideoEntry) (vs : List VideoEntry)
    → IsSorted at_least_as_good (a ∷ vs)
    → All (IsAtLeast a) vs
IsSorted-head a [] h = tt
IsSorted-head a (b ∷ vs) h =
    let first = at_least_as_good-IsAtLeast a b h.0 in
    (first, weaken vs first (IsSorted-head b vs h.1))
  where
    weaken : (us : List VideoEntry) → IsAtLeast a b → All (IsAtLeast b) us → All (IsAtLeast a) us
    weaken [] f k = tt
    weaken (u ∷ us) f k = (IsAtLeast-trans a b u f k.0, weaken us f k.1)

head-IsAtLeast :
    (sorted : List VideoEntry) (v : VideoEntry)
    → IsSorted at_least_as_good sorted
    → head sorted ≡ some v
    → All (IsAtLeast v) sorted
unfolding head
head-IsAtLeast [] v s h = cc
head-IsAtLeast (a ∷ vs) v s h =
    let e : a ≡ v = cc in
    subst (λ x. All (IsAtLeast x) (a ∷ vs)) e (IsAtLeast-self a, IsSorted-head a vs s)

-- The chosen video has a better type than every other video of the page, or the same type and no
-- lower quality.
select_best_video_best :
    (videos : List VideoEntry) (v : VideoEntry)
    → select_best_video videos ≡ some v
    → All (IsAtLeast v) videos
unfolding select_best_video
select_best_video_best videos v h = All-sort_by at_least_as_good (IsAtLeast v) videos (
    head-IsAtLeast (sort_by at_least_as_good videos) v
      (sort_by-IsSorted at_least_as_good at_least_as_good_total videos) h)
