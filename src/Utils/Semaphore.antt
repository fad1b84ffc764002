-- ===== src/Utils/Semaphore.antt =====
-- `BoundedSemaphore` of src/utils/semaphore.ts. A waiter object is a number, its identity; a
-- promise that settles is an `Outcome`. `signal?.aborted` is the argument `aborted`.
pub mod Invariant
pub mod Order
mod Tests
use ppvda.Base.{
  ℕ, suc, ◌+◌, ◌-◌, Bool, List, [], ◌∷◌, ◌++◌, Option, none, some, ltb, leb, ◌==◌, if◌then◌else◌,
  length,
}

pub record BoundedSemaphore : Type 0 where
  pub running : ℕ
  pub queue : List ℕ
  pub max : ℕ
  pub max_queue : ℕ

pub data Outcome : Type 0 where
  resolved aborted_error queue_full_error pending : Outcome

pub init : ℕ → ℕ → BoundedSemaphore
init max max_queue = record { running = 0; queue = []; max = max; max_queue = max_queue }

pub acquire : BoundedSemaphore → Bool → ℕ → BoundedSemaphore × Outcome
acquire s aborted waiter =
    if aborted
    then (s, aborted_error)
    else if ltb s.running s.max
    then (record s { running = s.running + 1 }, resolved)
    else if leb s.max_queue (length s.queue)
    then (s, queue_full_error)
    else (record s { queue = s.queue ++ waiter ∷ [] }, pending)

-- `indexOf` and `splice(i, 1)`: the first entry that is the waiter goes.
pub splice_out : ℕ → List ℕ → List ℕ
splice_out w [] = []
splice_out w (x ∷ xs) = if x == w then xs else x ∷ splice_out w xs

-- The listener of a waiter's signal. `grant` takes it off, so it runs only while the waiter waits.
pub on_abort : BoundedSemaphore → ℕ → BoundedSemaphore × Outcome
unfolding splice_out
on_abort s waiter = (record s { queue = splice_out waiter s.queue }, aborted_error)

-- `next.grant()`, and the waiter whose promise it resolves.
grant_next : BoundedSemaphore → List ℕ → BoundedSemaphore × Option ℕ
grant_next s [] = (s, none)
grant_next s (next ∷ rest) = (record s { running = s.running + 1; queue = rest }, some next)

-- Callers release what they acquired, so `running` is not 0 here and `- 1` is exact.
pub release : BoundedSemaphore → BoundedSemaphore × Option ℕ
unfolding grant_next
release s = grant_next (record s { running = s.running - 1 }) s.queue
