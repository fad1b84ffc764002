-- ===== src/Jobs/Store/Sweep.antt =====
-- What the sweep of stale jobs does, and when.
use ppvda.Jobs.Types.{failed, Job}
use ppvda.Base.{
  ◌<◌, All, String, if◌then◌else◌, ite, not, string_discrete, ◌&&◌, ℕ, ◌+◌, ◌≤◌, ◌≡◌, refl, ◌≢◌,
  true, false, List, [], ◌∷◌, Option, none, some, arith,
}
use ppvda.Base.JsMap
use ppvda.Jobs.Store.Updates.{get-update}
use ppvda.Jobs.Store.{
  assign, clear_sensitive, failed_with, is_terminal, JobStore, sweep_from, sweep_job, sweep_stale,
  is_stale, coarse,
}

-- What the sweep makes of a job.
swept : ℕ → Job → Job
swept now job =
    if is_stale job now then clear_sensitive (assign job (failed_with "Job timed out") now) else job

abbrev swept_if : ℕ → Option Job → Option Job → Option Job
swept_if now none o = o
swept_if now (some j) o = some (swept now j)

get-sweep_job :
    (now : ℕ) (j job : Job) (s : JobStore) (k : String)
    → JsMap.get k s.jobs ≡ some job
    → JsMap.get k (sweep_job now j s).jobs ≡ (
        if is_stale j now && not (is_terminal job)
        then ite
            (string_discrete j.id k)
            (some (clear_sensitive (assign job (failed_with "Job timed out") now)))
            (some job)
        else some job)
unfolding sweep_job is_terminal
get-sweep_job now j job s k h =
    ground (arith, get-update s j.id k (failed_with "Job timed out") now job h)

is_stale-not-terminal : (j : Job) (now : ℕ) → is_stale j now ≡ true → is_terminal j ≡ false
unfolding is_stale
is_stale-not-terminal j now h = ground arith

get-sweep_job_here :
    (now : ℕ) (j job : Job) (s : JobStore) (k : String)
    → j ≡ job
    → j.id ≡ k
    → JsMap.get k s.jobs ≡ some job
    → JsMap.get k (sweep_job now j s).jobs ≡ some (swept now job)
unfolding swept
get-sweep_job_here now j job s k same at_key h =
    ground (arith, get-sweep_job now j job s k h, is_stale-not-terminal j now)

get-sweep_job_ne :
    (now : ℕ) (j job : Job) (s : JobStore) (k : String)
    → j.id ≢ k
    → JsMap.get k s.jobs ≡ some job
    → JsMap.get k (sweep_job now j s).jobs ≡ some job
get-sweep_job_ne now j job s k n h = ground (arith, get-sweep_job now j job s k h)

-- Each job stands under its id.
abbrev pub IsKeyed : List (String × Job) → Type 0
IsKeyed m = All (λ e. e.1.id ≡ e.0) m

sweep_from-absent :
    (now : ℕ) (es : List (String × Job)) (s : JobStore) (k : String) (job : Job)
    → IsKeyed es
    → JsMap.get k es ≡ none
    → JsMap.get k s.jobs ≡ some job
    → JsMap.get k (sweep_from now es s).jobs ≡ some job
unfolding sweep_from JsMap.get
sweep_from-absent now [] s k job i n h = h
sweep_from-absent now ((l, j) ∷ es) s k job i n h =
    sweep_from-absent now es (sweep_job now j s) k job i.1 (ground arith)
      (get-sweep_job_ne now j job s k (ground (arith, i.0)) h)

get-sweep_from :
    (now : ℕ) (es : List (String × Job)) (s : JobStore) (k : String) (job : Job)
    → IsKeyed es
    → JsMap.Unique es
    → JsMap.get k es ≡ some job
    → JsMap.get k s.jobs ≡ some job
    → JsMap.get k (sweep_from now es s).jobs ≡ some (swept now job)
unfolding sweep_from JsMap.get
get-sweep_from now [] s k job i u n h = cc
get-sweep_from now ((l, j) ∷ es) s k job i u n h = elim (string_discrete l k) [
  | yes e ↦
      sweep_from-absent now es (sweep_job now j s) k (swept now job) i.1 (ground (arith, u.0))
        (get-sweep_job_here now j job s k (ground arith) (ground (arith, i.0)) h)
  | no e ↦
      get-sweep_from now es (sweep_job now j s) k job i.1 u.1 (ground arith)
        (get-sweep_job_ne now j job s k (ground (arith, i.0)) h)
]

-- In a store with unique keys where each job stands under its id, a sweep treats each job by itself:
-- it fails the job if the job is stale, and otherwise leaves it as it is.
get-sweep_stale :
    (s : JobStore) (k : String) (job : Job) (now : ℕ)
    → JsMap.Unique s.jobs
    → IsKeyed s.jobs
    → JsMap.get k s.jobs ≡ some job
    → JsMap.get k (sweep_stale s now).jobs ≡ some (swept now job)
unfolding sweep_stale
get-sweep_stale s k job now u i h = get-sweep_from now s.jobs s k job i u h h

coarse_bounds : (t : ℕ) → (coarse t ≤ t) × (t < coarse t + 60_000)
unfolding coarse
coarse_bounds t = omega arith

-- What a timed out job has become.
abbrev pub HasTimedOut : Option Job → Type 0
HasTimedOut o =
    (job : Job) × (o ≡ some job) × (job.status ≡ failed) × (job.error ≡ some "Job timed out")

-- A job that is neither `done` nor `failed`, and was last updated at time `t`, is left as it is by
-- a sweep at most 59 minutes later, and is failed with "Job timed out" by a sweep more than 60
-- minutes later, in a store with unique keys where each job stands under its id. Between the two it
-- depends on the second of the minute, since the time of an update is cut to its minute.
pub sweep_stale_timing :
    (s : JobStore) (k : String) (job : Job) (t now : ℕ)
    → JsMap.Unique s.jobs
    → IsKeyed s.jobs
    → JsMap.get k s.jobs ≡ some job
    → is_terminal job ≡ false
    → job.updated_at ≡ coarse t
    → (now ≤ t + 3_540_000 → JsMap.get k (sweep_stale s now).jobs ≡ some job)
      × (t + 3_600_000 < now → HasTimedOut (JsMap.get k (sweep_stale s now).jobs))
unfolding swept is_stale clear_sensitive assign failed_with
sweep_stale_timing s k job t now u i h live e = (
  λ early. ground (arith, get-sweep_stale s k job now u i h, coarse_bounds t),
  λ late. (
    clear_sensitive (assign job (failed_with "Job timed out") now),
    ground (arith, get-sweep_stale s k job now u i h, coarse_bounds t),
    refl,
    refl,
  ),
)
