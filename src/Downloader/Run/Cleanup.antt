-- ===== src/Downloader/Run/Cleanup.antt =====
-- A download that fails leaves no directory behind.
use ppvda.Base.{Option, none, some, List, [], ◌∷◌, ◌++◌, ◌≡◌, refl, ℕ, Option-cases, inl, inr}
use ppvda.Base.Text.{Text}
use ppvda.Extractor.Patterns.{MediaType, hls, dash, direct, image, inherited}
use ppvda.Downloader.Run.{
  Replies, EngineReply, finished, throws, DownloadEffect, makes_dir, runs_hls, runs_dash,
  runs_direct, moves_file, removes_dir, Downloaded, DownloadRun, clean_up, after_move, after_engine,
  download_in, download_video, engine_of, kept_duration,
}

-- An error comes after the removal of the directory, and a result names the directory.
pub record IsClean (dir : Text) (x : DownloadRun) : Type 0 where
  pub failed : x.result ≡ none → (es : List DownloadEffect) × (x.effects ≡ es ++ removes_dir ∷ [])
  pub kept : (d : Downloaded) → x.result ≡ some d → d.work_dir ≡ dir

clean_up-IsClean : (dir : Text) (effects : List DownloadEffect) → IsClean dir (clean_up effects)
unfolding clean_up
clean_up-IsClean dir effects = record { failed = λ h. (effects, refl); kept = λ d h. cc }

after_move-IsClean :
    (r : Replies) (dir : Text) (duration : Option ℕ) (effects : List DownloadEffect) (o : Option ℕ)
    → IsClean dir (after_move r dir duration effects o)
unfolding after_move
after_move-IsClean r dir duration effects none = clean_up-IsClean dir effects
after_move-IsClean r dir duration effects (some size) = record {
  failed = λ h. cc;
  kept = λ d h. cc;
}

after_engine-IsClean :
    (r : Replies) (type : MediaType) (dir : Text) (effects : List DownloadEffect) (e : EngineReply)
    → IsClean dir (after_engine r type dir effects e)
unfolding after_engine
after_engine-IsClean r type dir effects (throws message) = clean_up-IsClean dir effects
after_engine-IsClean r type dir effects (finished d) = elim (Option-cases r.move_error) [
  | inl e ↦
      rw (e, after_engine)
        (after_move-IsClean r dir (kept_duration type d) (effects ++ moves_file ∷ []) r.size)
  | inr (m, e) ↦ rw (e, after_engine) (clean_up-IsClean dir (effects ++ moves_file ∷ []))
]

download_in-IsClean :
    (r : Replies) (type : MediaType) (dir : Text) → IsClean dir (download_in r type dir)
unfolding download_in engine_of
download_in-IsClean r inherited dir = clean_up-IsClean dir (makes_dir ∷ [])
download_in-IsClean r hls dir = after_engine-IsClean r hls dir (makes_dir ∷ runs_hls ∷ []) r.engine
download_in-IsClean r dash dir =
    after_engine-IsClean r dash dir (makes_dir ∷ runs_dash ∷ []) r.engine
download_in-IsClean r direct dir =
    after_engine-IsClean r direct dir (makes_dir ∷ runs_direct ∷ []) r.engine
download_in-IsClean r image dir =
    after_engine-IsClean r image dir (makes_dir ∷ runs_direct ∷ []) r.engine

-- Once its directory is made, a download either gives a result in that directory, or throws with the
-- removal of the directory as its last effect, whichever step failed.
pub download_video-IsClean :
    (r : Replies) (type : MediaType) (dir : Text)
    → r.work_dir ≡ some dir
    → IsClean dir (download_video r type)
unfolding download_video
download_video-IsClean r type dir h = rw (h, download_video) (download_in-IsClean r type dir)
