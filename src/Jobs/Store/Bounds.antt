-- ===== src/Jobs/Store/Bounds.antt =====
-- How many jobs the store keeps, and which ones it may evict.
use ppvda.Jobs.Types.{Job}
use ppvda.Base.{
  leb, length, subst, ◌⊎◌, All, All-map, Bool-cases, String, string_discrete, ℕ, ◌≤◌, ◌≡◌, refl,
  ◌≢◌, inl, inr, false, List, [], ◌∷◌, none, some, arith,
}
use ppvda.Base.JsMap
use ppvda.Base.Sort.{sort_by, sort_by-All, All-sort_by}
use ppvda.Jobs.Store.{
  new_job, JobStore, evict, evict_from, terminal_of, older, is_terminal, create, emit,
}

-- The entries are not under this key.
abbrev Absent : String → List (String × Job) → Type 0
Absent k es = All (λ e. e.0 ≢ k) es

Absent-terminal_of :
    (k : String) (m : List (String × Job))
    → All (λ e. e.0 ≡ k → is_terminal e.1 ≡ false) m
    → Absent k (terminal_of m)
unfolding terminal_of
Absent-terminal_of k [] h = tt
Absent-terminal_of k ((i, j) ∷ m) h = elim (Bool-cases (is_terminal j)) [
  | inl over ↦ rw over (ground (arith, h.0), Absent-terminal_of k m h.1)
  | inr live ↦ rw live (Absent-terminal_of k m h.1)
]

absent-All :
    (k : String) (P : Job → Type 0) (m : List (String × Job))
    → JsMap.get k m ≡ none
    → All (λ e. e.0 ≡ k → P e.1) m
unfolding JsMap.get
absent-All k P [] h = tt
absent-All k P ((i, j) ∷ m) h = (λ e. absurd (ground arith), absent-All k P m (ground arith))

-- Under one key there is one entry.
entry_of_get :
    (k : String) (job : Job) (m : List (String × Job))
    → JsMap.Unique m
    → JsMap.get k m ≡ some job
    → All (λ e. e.0 ≡ k → e.1 ≡ job) m
unfolding JsMap.get
entry_of_get k job [] u h = tt
entry_of_get k job ((i, j) ∷ m) u h = elim (string_discrete i k) [
  | yes e ↦ (ground arith, absent-All k (λ x. x ≡ job) m (ground arith))
  | no e ↦ (ground arith, entry_of_get k job m u.1 (ground arith))
]

get-evict_from_of_Absent :
    (max_history : ℕ) (es jobs : List (String × Job)) (k : String)
    → Absent k es
    → JsMap.get k (evict_from max_history es jobs) ≡ JsMap.get k jobs
unfolding evict_from
get-evict_from_of_Absent max_history [] jobs k h = refl
get-evict_from_of_Absent max_history ((i, j) ∷ es) jobs k h = ground (
  arith,
  get-evict_from_of_Absent max_history es (JsMap.delete i jobs) k h.1,
  JsMap.get-delete i k jobs,
)

-- A job that is not terminal is still there after any eviction.
get-evict_active :
    (s : JobStore) (k : String) (job : Job)
    → JsMap.Unique s.jobs
    → JsMap.get k s.jobs ≡ some job
    → is_terminal job ≡ false
    → JsMap.get k (evict s).jobs ≡ some job
unfolding evict
get-evict_active s k job u h live =
    let spared = Absent-terminal_of k (sort_by older s.jobs) (
      sort_by-All older (λ e. e.0 ≡ k → is_terminal e.1 ≡ false) s.jobs
        (All-map (λ e. e.0 ≡ k → e.1 ≡ job) (λ e. e.0 ≡ k → is_terminal e.1 ≡ false) s.jobs
          (λ e same p. rw (same p) live) (entry_of_get k job s.jobs u h))) in
    ground (
      arith,
      get-evict_from_of_Absent s.max_history (terminal_of (sort_by older s.jobs)) s.jobs k spared,
    )

-- In a store with unique keys, making a job under a new id keeps every job that is neither `done`
-- nor `failed`, whatever the history limit, and the new job is in the store.
get-create_active :
    (s : JobStore) (id user k : String) (now : ℕ) (job : Job)
    → JsMap.Unique s.jobs
    → id ≢ k
    → JsMap.get k s.jobs ≡ some job
    → is_terminal job ≡ false
    → (JsMap.get k (create s id user now).0.jobs ≡ some job)
      × (JsMap.get id (create s id user now).0.jobs ≡ some (create s id user now).1)
unfolding create emit
get-create_active s id user k now job u n h live =
    let fresh = new_job id user now in
    let added = emit (record s { jobs = JsMap.set id fresh s.jobs }) fresh in
    let unique = JsMap.set-Unique id fresh s.jobs u in
    (
      get-evict_active added k job unique (ground (arith, JsMap.get-set id k fresh s.jobs)) live,
      get-evict_active added id fresh unique (ground (arith, JsMap.get-set id id fresh s.jobs))
          (unfold new_job is_terminal in refl),
    )

-- The eviction ends with few enough jobs, or has deleted every key of the list.
evict_from-bounded :
    (max_history : ℕ) (es jobs : List (String × Job))
    → (length (evict_from max_history es jobs) ≤ max_history)
      ⊎ ((k : String) (job : Job)
          → JsMap.get k (evict_from max_history es jobs) ≡ some job
          → Absent k es × (JsMap.get k jobs ≡ some job))
unfolding evict_from
evict_from-bounded max_history [] jobs = inr (λ k job h. (tt, h))
evict_from-bounded max_history ((i, j) ∷ es) jobs =
    elim (Bool-cases (leb (length jobs) max_history)) [
      | inl few ↦ inl (rw few (ground arith))
      | inr many ↦ rw many (elim (evict_from-bounded max_history es (JsMap.delete i jobs)) [
        | inl few ↦ inl few
        | inr gone ↦ inr (λ k job h.
            let (absent, left) = gone k job h in
            (
              (ground (arith, JsMap.get-delete i k jobs), absent),
              ground (arith, JsMap.get-delete i k jobs),
            ))
      ])
    ]

-- A terminal job of the list is among its terminal jobs.
terminal_of-Absent :
    (k : String) (m : List (String × Job))
    → Absent k (terminal_of m)
    → All (λ e. e.0 ≡ k → is_terminal e.1 ≡ false) m
unfolding terminal_of
terminal_of-Absent k [] h = tt
terminal_of-Absent k ((i, j) ∷ m) h = elim (Bool-cases (is_terminal j)) [
  | inl over ↦
      let (other, rest) = (rw over at h) in
      (λ same. absurd (other same), terminal_of-Absent k m rest)
  | inr live ↦ (λ _. live, terminal_of-Absent k m (rw live at h))
]

get_of_All :
    (k : String) (P : Job → Type 0) (job : Job) (m : List (String × Job))
    → All (λ e. e.0 ≡ k → P e.1) m
    → JsMap.get k m ≡ some job
    → P job
unfolding JsMap.get
get_of_All k P job [] h g = cc
get_of_All k P job ((i, j) ∷ m) h g = elim (string_discrete i k) [
  | yes e ↦ subst P (ground arith) (h.0 e)
  | no e ↦ get_of_All k P job m h.1 (ground arith)
]

-- After an eviction the store holds at most `maxHistory` jobs, or every job in it is still
-- running or waiting.
evict-bounded :
    (s : JobStore)
    → (length (evict s).jobs ≤ s.max_history)
      ⊎ ((k : String) (job : Job) → JsMap.get k (evict s).jobs ≡ some job → is_terminal job ≡ false)
unfolding evict
evict-bounded s = elim (Bool-cases (leb (length s.jobs) s.max_history)) [
  | inl few ↦ inl (rw few (ground arith))
  | inr many ↦
      rw many (elim (evict_from-bounded s.max_history (terminal_of (sort_by older s.jobs)) s.jobs) [
        | inl few ↦ inl few
        | inr gone ↦ inr (λ k job h.
            let (absent, left) = gone k job h in
            get_of_All k (λ j. is_terminal j ≡ false) job s.jobs
              (All-sort_by older (λ e. e.0 ≡ k → is_terminal e.1 ≡ false) s.jobs
                (terminal_of-Absent k (sort_by older s.jobs) absent))
              left)
      ])
]
