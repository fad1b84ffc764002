-- ===== src/Jobs/Pipeline/Quota.antt =====
-- No user has more than ten active jobs.
use ppvda.Base.{
  ℕ, ◌≤◌, List, [], ◌∷◌, Option, none, some, arith, String, Bool-cases, inl, inr, string_discrete,
  leb,
}
use ppvda.Jobs.Store.{JobStore, Patch, update, sweep_stale, active_count, init}
use ppvda.Jobs.Store.Counts.{
  active_count-create-le, active_count-update-le, active_count-sweep_stale-le, active_count-init,
}
use ppvda.Jobs.Pipeline.{submit, max_active_jobs_per_user}

-- What happens to the store in a running server.
pub data Act : Type 0 where
  submits : String → String → Act
  updates : String → Patch → Act
  sweeps : Act

-- The store after a submission, which a refusal leaves as it is.
pub after_submit : JobStore → Option JobStore → JobStore
after_submit s none = s
after_submit s (some s') = s'

pub step : JobStore → ℕ × Act → JobStore
unfolding submit after_submit
step s (now, submits id user) = after_submit s (submit s id user now)
step s (now, updates id p) = (update s id p now).0
step s (now, sweeps) = sweep_stale s now

pub run : JobStore → List (ℕ × Act) → JobStore
unfolding step
run s [] = s
run s (a ∷ acts) = run (step s a) acts

pub IsWithin : JobStore → Type 0
IsWithin s = (user : String) → active_count s user ≤ max_active_jobs_per_user

submit-IsWithin :
    (s : JobStore) (id user : String) (now : ℕ)
    → IsWithin s
    → IsWithin (after_submit s (submit s id user now))
unfolding IsWithin submit after_submit
submit-IsWithin s id user now h v =
    elim (Bool-cases (leb max_active_jobs_per_user (active_count s user))) [
      | inl e ↦ rw e (h v)
      | inr e ↦ rw e (elim (string_discrete user v) [
        | yes q ↦ rw q (ground (arith, e, active_count-create-le s id user v now))
        | no q ↦ ground (arith, h v, q, active_count-create-le s id user v now)
      ])
    ]

step-IsWithin : (s : JobStore) (a : ℕ × Act) → IsWithin s → IsWithin (step s a)
unfolding step IsWithin
step-IsWithin s (now, submits id user) h = submit-IsWithin s id user now h
step-IsWithin s (now, updates id p) h = λ v. omega (arith, h v, active_count-update-le s id v p now)
step-IsWithin s (now, sweeps) h = λ v. omega (arith, h v, active_count-sweep_stale-le s v now)

run-IsWithin : (s : JobStore) (acts : List (ℕ × Act)) → IsWithin s → IsWithin (run s acts)
unfolding run
run-IsWithin s [] h = h
run-IsWithin s (a ∷ acts) h = run-IsWithin (step s a) acts (step-IsWithin s a h)

-- After any history of submissions, updates and sweeps of a new store, no user has more than ten
-- jobs that are waiting or running.
pub run-init-IsWithin :
    (max_history : ℕ) (acts : List (ℕ × Act)) → IsWithin (run (init max_history) acts)
unfolding IsWithin
run-init-IsWithin max_history acts =
    run-IsWithin (init max_history) acts (λ v. omega (arith, active_count-init max_history v))
