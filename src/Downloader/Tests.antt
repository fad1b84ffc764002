-- ===== src/Downloader/Tests.antt =====
-- The classification of URLs and the choice of a video at concrete inputs.
use ppvda.Base.{length, ◌≤◌, Option, none, some, ◌≡◌, refl, All}
use ppvda.Base.Text.{Text, codes}
use ppvda.Extractor.Patterns.{hls, direct, detect_quality}
use ppvda.Downloader.Run.{Replies, throws, download_video}
use ppvda.Downloader.Run.Cleanup.{IsClean, download_video-IsClean}
use ppvda.Downloader.Names.{sanitize_filename}
use ppvda.Downloader.Names.Safe.{IsSafe, sanitize_filename-IsSafe}
use ppvda.Downloader.Select.{VideoEntry}

abbrev sample_path : Text → Option Text
sample_path url = some url

quality_found : detect_quality (codes "/v/1080P/a") ≡ some (codes "1080p")
unfolding detect_quality
quality_found = refl

abbrev low : VideoEntry
low = record { url = codes "a"; type = direct; quality = some (codes "480p") }

abbrev high : VideoEntry
high = record { url = codes "b"; type = direct; quality = some (codes "1080p") }

sanitize_filename-IsSafe_example :
    All IsSafe (sanitize_filename (codes "../../etc/passwd"))
    × (length (sanitize_filename (codes "../../etc/passwd")) ≤ 200)
sanitize_filename-IsSafe_example = sanitize_filename-IsSafe (codes "../../etc/passwd")

name_cleaned : sanitize_filename (codes "../a  b") ≡ codes ".._a_b"
unfolding sanitize_filename
name_cleaned = refl

abbrev broken_engine : Replies
broken_engine = record {
  work_dir = some (codes "/d");
  engine = throws "LIVE_STREAM";
  move_error = none;
  size = none;
}

download_video-IsClean_example : IsClean (codes "/d") (download_video broken_engine hls)
download_video-IsClean_example = download_video-IsClean broken_engine hls (codes "/d") refl
