-- ===== src/Jobs/Store/Calls.antt =====
-- Histories of the job store: what the pipeline and the sweep timer do with it.
use ppvda.Base.{ℕ, List, [], ◌∷◌, String}
use ppvda.Jobs.Store.{JobStore, Patch, create, update, sweep_stale}

pub data Call : Type 0 where
  creates : String → String → Call
  updates : String → Patch → Call
  sweeps : Call

unfoldable pub step : JobStore → ℕ × Call → JobStore
step s (now, creates id user) = (create s id user now).0
step s (now, updates id p) = (update s id p now).0
step s (now, sweeps) = sweep_stale s now

unfoldable pub run : JobStore → List (ℕ × Call) → JobStore
unfolding step
run s [] = s
run s (c ∷ cs) = run (step s c) cs
