-- ===== src/Jobs/Store/Terminal.antt =====
-- What the calls of the store leave of a job that is `done` or `failed`.
use ppvda.Base.Sort.{sort_by}
use ppvda.Jobs.Types.{Job}
use ppvda.Jobs.Store.Calls.{Call, creates, run, step, sweeps, updates}
use ppvda.Base.{
  refl, false, All, Bool-cases, [], ◌∷◌, ◌≢◌, Option, ◌⊎◌, List, ℕ, ◌≡◌, inl, inr, true, none, some,
  arith, String, Option-cases,
}
use ppvda.Base.JsMap
use ppvda.Jobs.Store.{
  is_active, sweep_job, older, terminal_of, failed_with, new_job, is_stale, sweep_stale, evict,
  evict_from, sweep_from, create, JobStore, Patch, is_final, emit, update,
}
use ppvda.Jobs.Store.Updates.{get-update, update-none}

-- What an operation may leave of a job under a key: the job itself, or nothing.
abbrev Keeps : String → Job → JobStore → Type 0
Keeps k job s = (JsMap.get k s.jobs ≡ some job) ⊎ (JsMap.get k s.jobs ≡ none)

update-Keeps :
    (s : JobStore) (id k : String) (p : Patch) (now : ℕ) (job : Job)
    → is_final job.status ≡ true
    → Keeps k job s
    → Keeps k job (update s id p now).0
update-Keeps s id k p now job t (inl h) = inl (ground (arith, get-update s id k p now job h))
update-Keeps s id k p now job t (inr h) = inr (update-none s id k p now h)

sweep_job-Keeps :
    (now : ℕ) (j : Job) (s : JobStore) (k : String) (job : Job)
    → is_final job.status ≡ true
    → Keeps k job s
    → Keeps k job (sweep_job now j s)
unfolding sweep_job
sweep_job-Keeps now j s k job t h = elim (Bool-cases (is_stale j now)) [
  | inl stale ↦ rw stale (update-Keeps s j.id k (failed_with "Job timed out") now job t h)
  | inr live ↦ rw live h
]

sweep_from-Keeps :
    (now : ℕ) (es : List (String × Job)) (s : JobStore) (k : String) (job : Job)
    → is_final job.status ≡ true
    → Keeps k job s
    → Keeps k job (sweep_from now es s)
unfolding sweep_from
sweep_from-Keeps now [] s k job t h = h
sweep_from-Keeps now ((i, j) ∷ es) s k job t h =
    sweep_from-Keeps now es (sweep_job now j s) k job t (sweep_job-Keeps now j s k job t h)

evict_from-Keeps :
    (max_history : ℕ) (es jobs : List (String × Job)) (k : String) (o : Option Job)
    → (JsMap.get k jobs ≡ o) ⊎ (JsMap.get k jobs ≡ none)
    → (JsMap.get k (evict_from max_history es jobs) ≡ o)
      ⊎ (JsMap.get k (evict_from max_history es jobs) ≡ none)
unfolding evict_from
evict_from-Keeps max_history [] jobs k o h = h
evict_from-Keeps max_history ((i, j) ∷ es) jobs k o h =
    ground
      (arith, evict_from-Keeps max_history es (JsMap.delete i jobs) k o, JsMap.get-delete i k jobs)

create-Keeps :
    (s : JobStore) (id user k : String) (now : ℕ) (job : Job)
    → id ≢ k
    → Keeps k job s
    → Keeps k job (create s id user now).0
unfolding create evict emit
create-Keeps s id user k now job n h = ground (
  arith,
  JsMap.get-set id k (new_job id user now) s.jobs,
  evict_from-Keeps s.max_history
      (terminal_of (sort_by older (JsMap.set id (new_job id user now) s.jobs)))
      (JsMap.set id (new_job id user now) s.jobs) k (some job),
)

-- Ids are made once: no call of the history makes the id again.
abbrev pub MakesNo : String → ℕ × Call → Type 0
MakesNo k (now, creates id user) = id ≢ k
MakesNo k _ = Unit {0}

step-Keeps :
    (s : JobStore) (c : ℕ × Call) (k : String) (job : Job)
    → is_final job.status ≡ true
    → MakesNo k c
    → Keeps k job s
    → Keeps k job (step s c)
unfolding step sweep_stale
step-Keeps s (now, creates id user) k job t n h = create-Keeps s id user k now job n h
step-Keeps s (now, updates id p) k job t n h = update-Keeps s id k p now job t h
step-Keeps s (now, sweeps) k job t n h = sweep_from-Keeps now s.jobs s k job t h

run-Keeps :
    (s : JobStore) (cs : List (ℕ × Call)) (k : String) (job : Job)
    → is_final job.status ≡ true
    → All (MakesNo k) cs
    → Keeps k job s
    → Keeps k job (run s cs)
unfolding run
run-Keeps s [] k job t n h = h
run-Keeps s (c ∷ cs) k job t n h =
    run-Keeps (step s c) cs k job t n.1 (step-Keeps s c k job t n.0 h)

-- A key without an entry stays so while no call makes its id.
sweep_job-none :
    (now : ℕ) (j : Job) (s : JobStore) (k : String)
    → JsMap.get k s.jobs ≡ none
    → JsMap.get k (sweep_job now j s).jobs ≡ none
unfolding sweep_job
sweep_job-none now j s k h = elim (Bool-cases (is_stale j now)) [
  | inl stale ↦ rw stale (update-none s j.id k (failed_with "Job timed out") now h)
  | inr live ↦ rw live h
]

sweep_from-none :
    (now : ℕ) (es : List (String × Job)) (s : JobStore) (k : String)
    → JsMap.get k s.jobs ≡ none
    → JsMap.get k (sweep_from now es s).jobs ≡ none
unfolding sweep_from
sweep_from-none now [] s k h = h
sweep_from-none now ((i, j) ∷ es) s k h =
    sweep_from-none now es (sweep_job now j s) k (sweep_job-none now j s k h)

create-none :
    (s : JobStore) (id user k : String) (now : ℕ)
    → id ≢ k
    → JsMap.get k s.jobs ≡ none
    → JsMap.get k (create s id user now).0.jobs ≡ none
unfolding create evict emit
create-none s id user k now n h = ground (
  arith,
  JsMap.get-set id k (new_job id user now) s.jobs,
  evict_from-Keeps s.max_history
      (terminal_of (sort_by older (JsMap.set id (new_job id user now) s.jobs)))
      (JsMap.set id (new_job id user now) s.jobs) k none,
)

step-none :
    (s : JobStore) (c : ℕ × Call) (k : String)
    → MakesNo k c
    → JsMap.get k s.jobs ≡ none
    → JsMap.get k (step s c).jobs ≡ none
unfolding step sweep_stale
step-none s (now, creates id user) k n h = create-none s id user k now n h
step-none s (now, updates id p) k n h = update-none s id k p now h
step-none s (now, sweeps) k n h = sweep_from-none now s.jobs s k h

pub run-none :
    (s : JobStore) (cs : List (ℕ × Call)) (k : String)
    → All (MakesNo k) cs
    → JsMap.get k s.jobs ≡ none
    → JsMap.get k (run s cs).jobs ≡ none
unfolding run
run-none s [] k n h = h
run-none s (c ∷ cs) k n h = run-none (step s c) cs k n.1 (step-none s c k n.0 h)

-- An inactive job stays inactive while no call makes its id.
pub is_active-run :
    (s : JobStore) (cs : List (ℕ × Call)) (k : String)
    → All (MakesNo k) cs
    → is_active s k ≡ false
    → is_active (run s cs) k ≡ false
unfolding is_active
is_active-run s cs k n h = elim (Option-cases (JsMap.get k s.jobs)) [
  | inl e ↦ rw (run-none s cs k n e) refl
  | inr (job, e) ↦
      let final : is_final job.status ≡ true = ground (arith, h, e) in
      elim (run-Keeps s cs k job final n (inl e)) [
        | inl kept ↦ rw kept (ground (arith, final))
        | inr gone ↦ rw gone refl
      ]
]

-- A job that is `done` or `failed` stays exactly as it is through any updates, sweeps and creations
-- of jobs with other ids, until it has no entry, and then it has none later either. So at any two
-- moments, after `cs` and after `ds` behind it, it is there unchanged at the first, and at the second
-- unchanged or without an entry, or it has no entry at both.
pub run_terminal :
    (s : JobStore) (cs ds : List (ℕ × Call)) (k : String) (job : Job)
    → JsMap.get k s.jobs ≡ some job
    → is_final job.status ≡ true
    → All (MakesNo k) cs
    → All (MakesNo k) ds
    → ((JsMap.get k (run s cs).jobs ≡ some job)
        × ((JsMap.get k (run (run s cs) ds).jobs ≡ some job)
            ⊎ (JsMap.get k (run (run s cs) ds).jobs ≡ none)))
      ⊎ ((JsMap.get k (run s cs).jobs ≡ none) × (JsMap.get k (run (run s cs) ds).jobs ≡ none))
run_terminal s cs ds k job h t n m = elim (run-Keeps s cs k job t n (inl h)) [
  | inl kept ↦ inl (kept, run-Keeps (run s cs) ds k job t m (inl kept))
  | inr gone ↦ inr (gone, run-none (run s cs) ds k m gone)
]
