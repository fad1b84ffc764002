-- ===== src/Extractor/Patterns/Media.antt =====
-- How the classifications of a URL relate.
use ppvda.Base.{true, Option, none, ◌≡◌, refl, inl, inr, Option-cases, Bool-cases, any}
use ppvda.Base.Text.{Text, equal}
use ppvda.Extractor.Patterns.{
  find, video_extensions, image_extensions, get_url_extension, match_by_extension,
  match_image_by_extension, classify_url, is_direct_media_url, map_match, with_quality,
}

module _ (pathname_of : Text → Option Text) where
  -- The direct classification of a URL is the one with images and without a content type, less its
  -- quality.
  is_direct_media_url-classify :
      (url : Text)
      → is_direct_media_url pathname_of url
        ≡ map_match (with_quality none) (classify_url pathname_of url none true)
  unfolding is_direct_media_url classify_url match_by_extension match_image_by_extension
  is_direct_media_url-classify url =
      elim (Option-cases (find video_extensions (get_url_extension pathname_of url))) [
        | inr (t, e) ↦ rw (e, is_direct_media_url, match_by_extension) refl
        | inl e ↦
            rw (e, is_direct_media_url, match_by_extension)
              (elim (Bool-cases
                (any (equal (get_url_extension pathname_of url)) image_extensions)) [
                  | inl f ↦ rw (f, is_direct_media_url, match_image_by_extension) refl
                  | inr f ↦ rw (f, is_direct_media_url, match_image_by_extension) refl
                ])
      ]
