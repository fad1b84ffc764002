-- ===== src/Downloader/Run.antt =====
-- `downloadVideo` of src/downloader/index.ts, over the replies of the engines and the file system. A
-- run gives its result or the error that it throws, and the effects in their order.
pub mod Cleanup
use ppvda.Base.{
  ℕ, Bool, true, false, List, [], ◌∷◌, ◌++◌, Option, none, some, String, ◌==◌, if◌then◌else◌,
}
use ppvda.Base.Text.{Text}
use ppvda.Extractor.Patterns.{MediaType, hls, dash, direct, image, inherited}

-- What an engine gives: the duration, where it knows one, or the error that it throws.
pub data EngineReply : Type 0 where
  finished : Option ℕ → EngineReply
  throws : String → EngineReply

pub data DownloadEffect : Type 0 where
  makes_dir runs_hls runs_dash runs_direct moves_file removes_dir : DownloadEffect

pub record Replies : Type 0 where
  -- `none` where the directory cannot be made.
  pub work_dir : Option Text
  pub engine : EngineReply
  pub move_error : Option String
  -- `none` where the size cannot be read.
  pub size : Option ℕ

pub record Downloaded : Type 0 where
  pub work_dir : Text
  pub file_size : ℕ
  pub duration_sec : Option ℕ

pub record DownloadRun : Type 0 where
  pub effects : List DownloadEffect
  pub result : Option Downloaded

-- The engine of a type; an unknown type has none.
pub engine_of : MediaType → List DownloadEffect
engine_of hls = runs_hls ∷ []
engine_of dash = runs_dash ∷ []
engine_of direct = runs_direct ∷ []
engine_of image = runs_direct ∷ []
engine_of inherited = []

-- `catch { await secureRemoveDir(workDir); throw err; }`
clean_up : List DownloadEffect → DownloadRun
clean_up effects = record { effects = effects ++ removes_dir ∷ []; result = none }

-- The duration is kept of the two stream engines only.
kept_duration : MediaType → Option ℕ → Option ℕ
kept_duration hls d = d
kept_duration dash d = d
kept_duration _ d = none

after_move : Replies → Text → Option ℕ → List DownloadEffect → Option ℕ → DownloadRun
unfolding clean_up
after_move r dir duration effects none = clean_up effects
after_move r dir duration effects (some size) = record {
  effects = effects;
  result = some (record { work_dir = dir; file_size = size; duration_sec = duration });
}

after_engine : Replies → MediaType → Text → List DownloadEffect → EngineReply → DownloadRun
unfolding clean_up after_move kept_duration
after_engine r type dir effects (throws message) = clean_up effects
after_engine r type dir effects (finished d) = elim r.move_error [
  | some message ↦ clean_up (effects ++ moves_file ∷ [])
  | none ↦ after_move r dir (kept_duration type d) (effects ++ moves_file ∷ []) r.size
]

download_in : Replies → MediaType → Text → DownloadRun
unfolding after_engine engine_of clean_up
download_in r inherited dir = clean_up (makes_dir ∷ [])
download_in r type dir = after_engine r type dir (makes_dir ∷ engine_of type) r.engine

pub download_video : Replies → MediaType → DownloadRun
unfolding download_in
download_video r type = elim r.work_dir [
  | none ↦ record { effects = makes_dir ∷ []; result = none }
  | some dir ↦ download_in r type dir
]
