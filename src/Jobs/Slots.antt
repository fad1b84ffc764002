-- ===== src/Jobs/Slots.antt =====
-- The small `Semaphore` of src/jobs/pipeline.ts, without bounds on its queue and without aborts. A
-- caller is a number.
use ppvda.Base.{ℕ, ◌+◌, ◌-◌, List, [], ◌∷◌, ◌++◌, ltb, if◌then◌else◌}

pub record Semaphore : Type 0 where
  pub max : ℕ
  pub running : ℕ
  pub queue : List ℕ

pub new_semaphore : ℕ → Semaphore
new_semaphore max = record { max = max; running = 0; queue = [] }

pub acquire_slot : Semaphore → ℕ → Semaphore
acquire_slot s caller =
    if ltb s.running s.max
    then record s { running = s.running + 1 }
    else record s { queue = s.queue ++ caller ∷ [] }

-- `shift`, and the call of what it gives.
wake_next : Semaphore → List ℕ → Semaphore
wake_next s [] = s
wake_next s (caller ∷ callers) = record s { running = s.running + 1; queue = callers }

pub release_slot : Semaphore → Semaphore
unfolding wake_next
release_slot s = wake_next (record s { running = s.running - 1 }) s.queue
