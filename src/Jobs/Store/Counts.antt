-- ===== src/Jobs/Store/Counts.antt =====
-- How many active jobs a user has, before and after the operations of the store.
use ppvda.Base.{
  ℕ, ◌+◌, ◌≤◌, ◌≡◌, refl, List, [], ◌∷◌, Option, none, some, arith, String, Bool-cases, inl, inr,
  string_discrete, ite, if◌then◌else◌, not, true, false, ◌&&◌,
}
use ppvda.Base.JsMap
use ppvda.Base.Sort.{sort_by}
use ppvda.Jobs.Types.{Job}
use ppvda.Jobs.Store.{
  JobStore, Patch, count_active, is_terminal, evict_from, evict, create, new_job, emit, update_job,
  update, active_count, clear_sensitive, assign, sweep_job, sweep_from, sweep_stale, is_stale,
  failed_with, terminal_of, older, init,
}

-- A job is counted for a user.
counted : String → Job → ℕ
unfolding is_terminal
counted user j =
    if ite (string_discrete j.user_id user) true false && not (is_terminal j) then 1 else 0

count_active-delete-le :
    (user k : String) (m : List (String × Job))
    → count_active user (JsMap.delete k m) ≤ count_active user m
unfolding count_active JsMap.delete
count_active-delete-le user k [] = omega arith
count_active-delete-le user k ((i, j) ∷ m) = ground (arith, count_active-delete-le user k m)

count_active-set-le :
    (user k : String) (j : Job) (m : List (String × Job))
    → count_active user (JsMap.set k j m) ≤ counted user j + count_active user m
unfolding count_active counted JsMap.set
count_active-set-le user k j [] = ground arith
count_active-set-le user k j ((i, x) ∷ m) = ground (arith, count_active-set-le user k j m)

-- Replacing a job by one that is counted for no user more leaves the count.
count_active-set_same :
    (user k : String) (x j : Job) (m : List (String × Job))
    → JsMap.get k m ≡ some x
    → counted user j ≤ counted user x
    → count_active user (JsMap.set k j m) ≤ count_active user m
unfolding count_active counted JsMap.set JsMap.get
count_active-set_same user k x j [] h c = cc
count_active-set_same user k x j ((i, y) ∷ m) h c =
    ground (arith, count_active-set_same user k x j m)

count_active-evict_from-le :
    (user : String) (max_history : ℕ) (es jobs : List (String × Job))
    → count_active user (evict_from max_history es jobs) ≤ count_active user jobs
unfolding evict_from
count_active-evict_from-le user max_history [] jobs = omega arith
count_active-evict_from-le user max_history ((k, j) ∷ es) jobs = ground (
  arith,
  count_active-evict_from-le user max_history es (JsMap.delete k jobs),
  count_active-delete-le user k jobs,
)

-- A new job is counted for its user at most, and the eviction adds none.
pub active_count-create-le :
    (s : JobStore) (id owner user : String) (now : ℕ)
    → active_count (create s id owner now).0 user
      ≤ ite (string_discrete owner user) 1 0 + active_count s user
unfolding active_count create evict emit counted new_job
active_count-create-le s id owner user now = ground (
  arith,
  count_active-set-le user id (new_job id owner now) s.jobs,
  count_active-evict_from-le user s.max_history
      (terminal_of (sort_by older (JsMap.set id (new_job id owner now) s.jobs)))
      (JsMap.set id (new_job id owner now) s.jobs),
)

counted-assign-le :
    (user : String) (x : Job) (p : Patch) (now : ℕ)
    → is_terminal x ≡ false
    → counted user (clear_sensitive (assign x p now)) ≤ counted user x
unfolding counted clear_sensitive assign is_terminal
counted-assign-le user x p now h = ground arith

active_count-update_job-le :
    (s : JobStore) (id user : String) (p : Patch) (now : ℕ) (o : Option Job)
    → JsMap.get id s.jobs ≡ o
    → active_count (update_job s id p now o).0 user ≤ active_count s user
unfolding active_count update_job emit
active_count-update_job-le s id user p now none h = omega arith
active_count-update_job-le s id user p now (some x) h = elim (Bool-cases (is_terminal x)) [
  | inl e ↦ rw e (omega arith)
  | inr e ↦ rw e (
      count_active-set_same user id x (clear_sensitive (assign x p now)) s.jobs h
        (counted-assign-le user x p now e))
]

pub active_count-update-le :
    (s : JobStore) (id user : String) (p : Patch) (now : ℕ)
    → active_count (update s id p now).0 user ≤ active_count s user
unfolding update
active_count-update-le s id user p now =
    active_count-update_job-le s id user p now (JsMap.get id s.jobs) refl

active_count-sweep_job-le :
    (now : ℕ) (j : Job) (s : JobStore) (user : String)
    → active_count (sweep_job now j s) user ≤ active_count s user
unfolding sweep_job
active_count-sweep_job-le now j s user = elim (Bool-cases (is_stale j now)) [
  | inl e ↦ rw e (active_count-update-le s j.id user (failed_with "Job timed out") now)
  | inr e ↦ rw e (omega arith)
]

active_count-sweep_from-le :
    (now : ℕ) (es : List (String × Job)) (s : JobStore) (user : String)
    → active_count (sweep_from now es s) user ≤ active_count s user
unfolding sweep_from
active_count-sweep_from-le now [] s user = omega arith
active_count-sweep_from-le now ((k, j) ∷ es) s user = omega (
  arith,
  active_count-sweep_from-le now es (sweep_job now j s) user,
  active_count-sweep_job-le now j s user,
)

pub active_count-sweep_stale-le :
    (s : JobStore) (user : String) (now : ℕ)
    → active_count (sweep_stale s now) user ≤ active_count s user
unfolding sweep_stale
active_count-sweep_stale-le s user now = active_count-sweep_from-le now s.jobs s user

pub active_count-init : (max_history : ℕ) (user : String) → active_count (init max_history) user ≡ 0
unfolding active_count init count_active
active_count-init max_history user = refl
