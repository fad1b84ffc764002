-- ===== src/Jobs/Store/Updates.antt =====
-- What an update leaves under the key of a job.
use ppvda.Jobs.Types.{Job, JobStatus, failed}
use ppvda.Base.{
  refl, false, Bool-cases, ℕ, ◌≡◌, inl, inr, true, none, some, arith, String, ite, if◌then◌else◌,
  string_discrete, Option-cases,
}
use ppvda.Base.JsMap
use ppvda.Jobs.Store.{
  is_active, is_terminal, failed_with, JobStore, Patch, is_final, emit, assign, clear_sensitive,
  update_job, update,
}

get-update_job :
    (s : JobStore) (id k : String) (p : Patch) (now : ℕ) (job : Job)
    → JsMap.get id s.jobs ≡ some job
    → JsMap.get k (update_job s id p now (some job)).0.jobs ≡ (
        if is_final job.status
        then JsMap.get k s.jobs
        else ite
            (string_discrete id k)
            (some (clear_sensitive (assign job p now)))
            (JsMap.get k s.jobs))
unfolding update_job emit
get-update_job s id k p now job h =
    ground (arith, JsMap.get-set id k (clear_sensitive (assign job p now)) s.jobs)

pub get-update :
    (s : JobStore) (id k : String) (p : Patch) (now : ℕ) (job : Job)
    → JsMap.get k s.jobs ≡ some job
    → JsMap.get k (update s id p now).0.jobs ≡ (
        if is_final job.status
        then some job
        else ite (string_discrete id k) (some (clear_sensitive (assign job p now))) (some job))
unfolding update
get-update s id k p now job h = elim (Option-cases (JsMap.get id s.jobs)) [
  | inl e ↦ rw (e, update_job) (ground arith)
  | inr (x, e) ↦ rw (e, update_job) (ground (arith, get-update_job s id k p now x e))
]

pub update-none :
    (s : JobStore) (id k : String) (p : Patch) (now : ℕ)
    → JsMap.get k s.jobs ≡ none
    → JsMap.get k (update s id p now).0.jobs ≡ none
unfolding update
update-none s id k p now h = elim (Option-cases (JsMap.get id s.jobs)) [
  | inl e ↦ rw (e, update_job) h
  | inr (x, e) ↦ rw (e, update_job) (ground (arith, get-update_job s id k p now x e))
]

final_status :
    (job : Job) (p : Patch) (now : ℕ) (st : JobStatus)
    → p.status ≡ some st
    → is_final st ≡ true
    → is_final (clear_sensitive (assign job p now)).status ≡ true
unfolding clear_sensitive assign is_terminal
final_status job p now st h f = elim (Bool-cases (is_final (assign job p now).status)) [
  | inl e ↦ rw h (ground (arith, f))
  | inr e ↦ rw h (ground (arith, f))
]

-- An update that gives a final status leaves the job inactive, or without an entry.
pub is_active-update_final :
    (s : JobStore) (id : String) (p : Patch) (st : JobStatus) (now : ℕ)
    → p.status ≡ some st
    → is_final st ≡ true
    → is_active (update s id p now).0 id ≡ false
unfolding is_active
is_active-update_final s id p st now h f = elim (Option-cases (JsMap.get id s.jobs)) [
  | inl e ↦ rw (update-none s id id p now e) refl
  | inr (job, e) ↦
      rw (get-update s id id p now job e) (ground (arith, final_status job p now st h f))
]

pub is_active-update_failed :
    (s : JobStore) (id message : String) (now : ℕ)
    → is_active (update s id (failed_with message) now).0 id ≡ false
unfolding failed_with
is_active-update_failed s id message now =
    is_active-update_final s id (failed_with message) failed now refl refl
