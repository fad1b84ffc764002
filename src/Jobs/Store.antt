-- ===== src/Jobs/Store.antt =====
-- `JobStore` of src/jobs/store.ts. `Date.now()` is the argument `now`, and the id that `generateId` makes is the argument `id`. Listeners get the events
-- of `emit`, in the store's order, in the field `events`; they do not change the store.
pub mod Terminal
pub mod Updates
pub mod Counts
pub mod Bounds
pub mod Sweep
pub mod Listing
pub mod Calls
pub mod Invariant
mod Tests
use ppvda.Base.{
  ℕ, suc, ◌+◌, ◌-◌, ◌%◌, Bool, true, false, ◌&&◌, ◌||◌, not, List, [], ◌∷◌, ◌++◌, Option, none,
  some, ltb, leb, String, ite, if◌then◌else◌, length, string_discrete, map, is_some,
}
use ppvda.Base.JsMap
use ppvda.Base.Sort.{sort_by}
use ppvda.Jobs.Types.{
  JobStatus, extracting, downloading, encrypting, done, failed, Job, JobEvent, JobResponse,
}

abbrev pub job_timeout_ms : ℕ
job_timeout_ms = 3_600_000

-- `Partial<Job>`, for the fields that the program patches: `none` is a field that is not given.
pub record Patch : Type 0 where
  pub status : Option JobStatus
  pub error : Option String
  pub video_type : Option String
  pub file_size : Option ℕ
  pub duration_sec : Option ℕ
  pub format : Option String

pub record JobStore : Type 0 where
  pub jobs : List (String × Job)
  pub events : List JobEvent
  pub max_history : ℕ

unfoldable pub init : ℕ → JobStore
init max_history = record { jobs = []; events = []; max_history = max_history }

-- The start of the minute.
unfoldable pub coarse : ℕ → ℕ
coarse now = now - now % 60_000

abbrev pub is_final : JobStatus → Bool
is_final done = true
is_final failed = true
is_final _ = false

unfoldable pub is_terminal : Job → Bool
is_terminal job = is_final job.status

emit : JobStore → Job → JobStore
emit s job = record s { events = s.events ++ event ∷ [] }
  where
    event : JobEvent
    event = record {
      job_id = job.id;
      status = job.status;
      updated_at = job.updated_at;
      error = job.error;
      file_size = job.file_size;
      duration_sec = job.duration_sec;
      darkreel_media_id = job.darkreel_media_id;
    }

-- The terminal jobs of a list, in its order.
terminal_of : List (String × Job) → List (String × Job)
unfolding is_terminal
terminal_of [] = []
terminal_of ((k, j) ∷ m) = let rest = terminal_of m in if is_terminal j then (k, j) ∷ rest else rest

-- The loop of `evict`: it stops when few enough jobs are left.
evict_from : ℕ → List (String × Job) → List (String × Job) → List (String × Job)
evict_from max_history [] jobs = jobs
evict_from max_history ((k, j) ∷ es) jobs =
    let fewer = evict_from max_history es (JsMap.delete k jobs) in
    if leb (length jobs) max_history then jobs else fewer

older : String × Job → String × Job → Bool
older a b = leb a.1.created_at b.1.created_at

pub evict : JobStore → JobStore
unfolding evict_from terminal_of older
evict s =
    if leb (length s.jobs) s.max_history
    then s
    else record s { jobs = evict_from s.max_history (terminal_of (sort_by older s.jobs)) s.jobs }

pub new_job : String → String → ℕ → Job
unfolding coarse
new_job id user now = record {
  id = id;
  user_id = user;
  status = extracting;
  created_at = coarse now;
  updated_at = coarse now;
  error = none;
  video_type = none;
  file_size = none;
  duration_sec = none;
  format = none;
  file_path = none;
  darkreel_media_id = none;
}

unfoldable pub create : JobStore → String → String → ℕ → JobStore × Job
unfolding new_job emit evict
create s id user now =
    let job = new_job id user now in
    (evict (emit (record s { jobs = JsMap.set id job s.jobs }) job), job)

pub get : JobStore → String → Option Job
get s id = JsMap.get id s.jobs

-- `!!job && !isTerminal(job)`
abbrev active_job : Option Job → Bool
active_job none = false
active_job (some job) = not (is_final job.status)

unfoldable pub is_active : JobStore → String → Bool
is_active s id = active_job (JsMap.get id s.jobs)

count_active : String → List (String × Job) → ℕ
unfolding is_terminal
count_active user [] = 0
count_active user ((k, j) ∷ m) =
    (if ite (string_discrete j.user_id user) true false && not (is_terminal j) then 1 else 0)
    + count_active user m

pub active_count : JobStore → String → ℕ
unfolding count_active
active_count s user = count_active user s.jobs

abbrev given {ℓ} : {A : Type ℓ} → Option A → A → A
given none a = a
given (some b) a = b

abbrev given_option {ℓ} : {A : Type ℓ} → Option A → Option A → Option A
given_option none o = o
given_option (some b) o = some b

-- `Object.assign(job, patch, { updatedAt: coarseNow() })`
pub assign : Job → Patch → ℕ → Job
unfolding coarse
assign j p now = record j {
  status = given p.status j.status;
  error = given_option p.error j.error;
  video_type = given_option p.video_type j.video_type;
  file_size = given_option p.file_size j.file_size;
  duration_sec = given_option p.duration_sec j.duration_sec;
  format = given_option p.format j.format;
  updated_at = coarse now;
}

pub clear_sensitive : Job → Job
unfolding is_terminal
clear_sensitive j =
    if is_terminal j
    then record j {
      file_path = none;
      file_size = none;
      duration_sec = none;
      format = none;
      video_type = none;
    }
    else j

update_job : JobStore → String → Patch → ℕ → Option Job → JobStore × Option Job
unfolding emit assign clear_sensitive is_terminal
update_job s id p now none = (s, none)
update_job s id p now (some job) =
    let job' = clear_sensitive (assign job p now) in
    if is_terminal job
    then (s, some job)
    else (emit (record s { jobs = JsMap.set id job' s.jobs }) job', some job')

unfoldable pub update : JobStore → String → Patch → ℕ → JobStore × Option Job
unfolding update_job
update s id p now = update_job s id p now (JsMap.get id s.jobs)

pub failed_with : String → Patch
failed_with message = record {
  status = some failed;
  error = some message;
  video_type = none;
  file_size = none;
  duration_sec = none;
  format = none;
}

pub is_stale : Job → ℕ → Bool
unfolding is_terminal
is_stale job now = not (is_terminal job) && ltb job_timeout_ms (now - job.updated_at)

sweep_job : ℕ → Job → JobStore → JobStore
unfolding is_stale failed_with
sweep_job now j s =
    if is_stale j now then (update s j.id (failed_with "Job timed out") now).0 else s

-- The loop of `sweepStale`; an update of one job changes no other.
sweep_from : ℕ → List (String × Job) → JobStore → JobStore
unfolding sweep_job
sweep_from now [] s = s
sweep_from now ((k, j) ∷ es) s = sweep_from now es (sweep_job now j s)

pub sweep_stale : JobStore → ℕ → JobStore
unfolding sweep_from
sweep_stale s now = sweep_from now s.jobs s

pub strip_internal : Job → JobResponse
strip_internal job = record {
  id = job.id;
  status = job.status;
  created_at = job.created_at;
  updated_at = job.updated_at;
  error = job.error;
  video_type = job.video_type;
  file_size = job.file_size;
  duration_sec = job.duration_sec;
  format = job.format;
  darkreel_media_id = job.darkreel_media_id;
}

pub newer : Job → Job → Bool
newer a b = leb b.created_at a.created_at

-- `jobs.filter((j) => j.userId === userId)`
pub of_user : String → List Job → List Job
of_user user [] = []
of_user user (j ∷ js) =
    let rest = of_user user js in ite (string_discrete j.user_id user) (j ∷ rest) rest

-- The filter is left out where no user is given, and also for the empty string.
chosen : Option String → List Job → List Job
unfolding of_user
chosen none js = js
chosen (some user) js = ite (string_discrete user "") js (of_user user js)

pub list : JobStore → Option String → List JobResponse
unfolding chosen newer strip_internal
list s user = map strip_internal (sort_by newer (chosen user (map (λ e. e.1) s.jobs)))
