-- ===== src/Jobs/Store/Tests.antt =====
-- Runs of the job store, and its theorems at concrete inputs.
use text.Mathlib.TextEquality.{eq_iff}
use ppvda.Jobs.Types.{Job, done, extracting}
use ppvda.Base.JsMap
use ppvda.Base.Sort.{sort_by}
use ppvda.Base.{
  string_discrete, ◌+◌, ◌<◌, ℕ, ◌≡◌, refl, ◌≤◌, List, [], ◌∷◌, none, some, arith, String, ◌≢◌, ◌⊎◌,
}
use ppvda.Jobs.Store.{coarse, is_terminal, list, sweep_stale, JobStore, init, create, update, Patch}
use ppvda.Jobs.Store.Calls.{Call, creates, updates, sweeps, run}
use ppvda.Jobs.Store.Invariant.{IsValid, run-init-IsValid}
use ppvda.Jobs.Store.Terminal.{run_terminal}
use ppvda.Jobs.Store.Sweep.{IsKeyed, sweep_stale_timing, HasTimedOut}
use ppvda.Jobs.Store.Listing.{IsListing, list-IsListing}

abbrev finished : Patch
finished = record {
  status = some done;
  error = none;
  video_type = none;
  file_size = none;
  duration_sec = none;
  format = none;
}

-- Two jobs at the first minute; the first one ends a minute later.
abbrev history : List (ℕ × Call)
history = (10, creates "j1" "ann") ∷ (20, creates "j2" "bob") ∷ (60_500, updates "j1" finished) ∷ []

abbrev two : JobStore
two = run (init 2) history

abbrev first_job : Job
first_job = record {
  id = "j1";
  user_id = "ann";
  status = done;
  created_at = 0;
  updated_at = 60_000;
  error = none;
  video_type = none;
  file_size = none;
  duration_sec = none;
  format = none;
  file_path = none;
  darkreel_media_id = none;
}

abbrev second_job : Job
second_job = record first_job { id = "j2"; user_id = "bob"; status = extracting; updated_at = 0 }

-- A third job pushes the finished one out.
third_evicts : JsMap.keys (run two ((70_000, creates "j3" "ann") ∷ [])).jobs ≡ "j2" ∷ "j3" ∷ []
unfolding run init create update JsMap.get JsMap.set JsMap.delete string_discrete sort_by
third_evicts = refl

run-init-IsValid_example : IsValid (run (init 2) history)
run-init-IsValid_example = run-init-IsValid 2 history

-- The job that pushes the finished one out.
abbrev third : List (ℕ × Call)
third = (70_000, creates "j3" "ann") ∷ []

j3_ne_j1 : ◌≢◌ {A = String} "j3" "j1"
j3_ne_j1 = ground (arith, eq_iff "j3" "j1")

run_terminal_example :
    ((JsMap.get "j1" (run two ((99, sweeps) ∷ (99, updates "j1" finished) ∷ [])).jobs
        ≡ some first_job)
      × ((JsMap.get "j1"
              (run (run two ((99, sweeps) ∷ (99, updates "j1" finished) ∷ [])) third).jobs
            ≡ some first_job)
          ⊎ (JsMap.get "j1"
                (run (run two ((99, sweeps) ∷ (99, updates "j1" finished) ∷ [])) third).jobs
              ≡ none)))
    ⊎ ((JsMap.get "j1" (run two ((99, sweeps) ∷ (99, updates "j1" finished) ∷ [])).jobs ≡ none)
        × (JsMap.get "j1"
              (run (run two ((99, sweeps) ∷ (99, updates "j1" finished) ∷ [])) third).jobs
            ≡ none))
unfolding run init create update JsMap.get JsMap.set string_discrete
run_terminal_example =
    run_terminal two ((99, sweeps) ∷ (99, updates "j1" finished) ∷ []) third "j1" first_job refl
      refl (tt, (tt, tt)) (j3_ne_j1, tt)

j3_ne_j2 : ◌≢◌ {A = String} "j3" "j2"
j3_ne_j2 = ground (arith, eq_iff "j3" "j2")

two-IsKeyed : IsKeyed two.jobs
unfolding run init create update JsMap.get JsMap.set string_discrete
two-IsKeyed = (refl, (refl, tt))

sweep_stale_timing_example :
    (3_000_000 ≤ 20 + 3_540_000 → JsMap.get "j2" (sweep_stale two 3_000_000).jobs ≡ some second_job)
    × (20 + 3_600_000 < 3_000_000 → HasTimedOut (JsMap.get "j2" (sweep_stale two 3_000_000).jobs))
unfolding run init create update JsMap.get JsMap.set string_discrete is_terminal coarse
sweep_stale_timing_example =
    sweep_stale_timing two "j2" second_job 20 3_000_000 (run-init-IsValid 2 history).unique
      two-IsKeyed refl refl refl

ann_ne_empty : ◌≢◌ {A = String} "ann" ""
ann_ne_empty = ground (arith, eq_iff "ann" "")

list-IsListing_example : IsListing two "ann" (list two (some "ann"))
list-IsListing_example = list-IsListing two "ann" ann_ne_empty
