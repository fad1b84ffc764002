-- ===== src/Jobs/Store/Invariant.antt =====
-- What holds of every store that the program can reach.
use ppvda.Jobs.Types.{Job}
use ppvda.Jobs.Store.Calls.{Call, creates, run, step, sweeps, updates}
use ppvda.Base.JsMap
use ppvda.Base.{
  All, Bool-cases, Option-cases, String, inl, inr, leb, length, sym, ◌∙◌, ℕ, ◌≡◌, true, List, [],
  ◌∷◌, none, arith,
}
use ppvda.Jobs.Store.{
  older, sort_by, sweep_job, terminal_of, evict_from, sweep_from, update_job, emit, Patch, assign,
  clear_sensitive, create, evict, failed_with, init, is_final, is_stale, is_terminal, new_job,
  sweep_stale, update, JobStore,
}

-- A terminal job keeps no path, size, length, format or type of its media.
abbrev pub IsCleared : Job → Type 0
IsCleared j =
    is_final j.status ≡ true
    → (j.file_path ≡ none)
      × (j.file_size ≡ none)
      × (j.duration_sec ≡ none)
      × (j.format ≡ none)
      × (j.video_type ≡ none)

abbrev pub IsGood : String × Job → Type 0
IsGood e = (e.1.id ≡ e.0) × IsCleared e.1

pub record IsValid (s : JobStore) : Type 0 where
  pub unique : JsMap.Unique s.jobs
  pub good : All IsGood s.jobs

init-IsValid : (max_history : ℕ) → IsValid (init max_history)
unfolding init
init-IsValid max_history = record { unique = tt; good = tt }

clear_sensitive-IsCleared : (j : Job) → IsCleared (clear_sensitive j)
unfolding clear_sensitive is_terminal
clear_sensitive-IsCleared j = ground arith

id-clear_sensitive : (j : Job) (p : Patch) (now : ℕ) → (clear_sensitive (assign j p now)).id ≡ j.id
unfolding clear_sensitive assign
id-clear_sensitive j p now = ground arith

update-IsValid :
    (s : JobStore) (id : String) (p : Patch) (now : ℕ) → IsValid s → IsValid (update s id p now).0
unfolding update
update-IsValid s id p now v = elim (Option-cases (JsMap.get id s.jobs)) [
  | inl e ↦ rw (e, update_job) v
  | inr (job, e) ↦ elim (Bool-cases (is_terminal job)) [
    | inl over ↦ rw (e, update_job, over) v
    | inr live ↦
        let (j, at, (keyed, _)) = JsMap.get-All IsGood id job s.jobs v.good e in
        rw (e, update_job, live)
          (unfold emit in
            record {
              unique = JsMap.set-Unique id _ s.jobs v.unique;
              good =
                  JsMap.set-All IsGood id _ s.jobs
                    (λ k same. (
                      id-clear_sensitive job p now ∙ keyed ∙ at ∙ sym same,
                      clear_sensitive-IsCleared (assign job p now),
                    ))
                    v.good;
            })
  ]
]

evict_from-IsValid :
    (max_history : ℕ) (es jobs : List (String × Job))
    → JsMap.Unique jobs × All IsGood jobs
    → JsMap.Unique (evict_from max_history es jobs) × All IsGood (evict_from max_history es jobs)
unfolding evict_from
evict_from-IsValid max_history [] jobs v = v
evict_from-IsValid max_history ((k, j) ∷ es) jobs v =
    elim (Bool-cases (leb (length jobs) max_history)) [
      | inl few ↦ rw few v
      | inr many ↦ rw many (
          evict_from-IsValid max_history es (JsMap.delete k jobs)
            (JsMap.delete-Unique k jobs v.0, JsMap.delete-All IsGood k jobs v.1))
    ]

evict-IsValid : (s : JobStore) → IsValid s → IsValid (evict s)
unfolding evict
evict-IsValid s v = elim (Bool-cases (leb (length s.jobs) s.max_history)) [
  | inl few ↦ rw few v
  | inr many ↦
      let (u, g) =
        evict_from-IsValid s.max_history (terminal_of (sort_by older s.jobs)) s.jobs
          (v.unique, v.good) in
      rw many (record { unique = u; good = g })
]

create-IsValid :
    (s : JobStore) (id user : String) (now : ℕ) → IsValid s → IsValid (create s id user now).0
unfolding create emit new_job
create-IsValid s id user now v = evict-IsValid _ (record {
  unique = JsMap.set-Unique id _ s.jobs v.unique;
  good = JsMap.set-All IsGood id _ s.jobs (λ k same. (sym same, λ f. cc)) v.good;
})

sweep_from-IsValid :
    (now : ℕ) (es : List (String × Job)) (s : JobStore) → IsValid s → IsValid (sweep_from now es s)
unfolding sweep_from sweep_job
sweep_from-IsValid now [] s v = v
sweep_from-IsValid now ((k, j) ∷ es) s v =
    sweep_from-IsValid now es (sweep_job now j s) (elim (Bool-cases (is_stale j now)) [
      | inl stale ↦ rw stale (update-IsValid s j.id (failed_with "Job timed out") now v)
      | inr live ↦ rw live v
    ])

step-IsValid : (s : JobStore) (c : ℕ × Call) → IsValid s → IsValid (step s c)
unfolding step sweep_stale
step-IsValid s (now, creates id user) v = create-IsValid s id user now v
step-IsValid s (now, updates id p) v = update-IsValid s id p now v
step-IsValid s (now, sweeps) v = sweep_from-IsValid now s.jobs s v

run-IsValid : (s : JobStore) (cs : List (ℕ × Call)) → IsValid s → IsValid (run s cs)
unfolding run
run-IsValid s [] v = v
run-IsValid s (c ∷ cs) v = run-IsValid (step s c) cs (step-IsValid s c v)

-- After any creations, updates and sweeps of a new store, no id stands twice, each job stands under
-- its own id, and a job that is `done` or `failed` has no file path, file size, duration, format and
-- video type.
pub run-init-IsValid :
    (max_history : ℕ) (cs : List (ℕ × Call)) → IsValid (run (init max_history) cs)
run-init-IsValid max_history cs = run-IsValid (init max_history) cs (init-IsValid max_history)
