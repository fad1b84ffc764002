-- ===== src/Utils/Semaphore/Invariant.antt =====
-- The semaphore under any interleaving of its callers: who holds a slot, and who waits.
use ppvda.Base.{
  ℕ, ◌≤◌, ◌<◌, ◌≡◌, ◌≢◌, Bool, List, [], ◌∷◌, ◌++◌, Option, none, some, arith, length,
  length-append, All,
}
use ppvda.Utils.Semaphore.{
  BoundedSemaphore, Outcome, resolved, init, acquire, splice_out, on_abort, release,
}

-- The callers that were granted a slot and have not released it, beside the semaphore.
pub record World : Type 0 where
  pub sem : BoundedSemaphore
  pub holders : List ℕ

abbrev pub joined : Outcome → ℕ → List ℕ → List ℕ
joined resolved w hs = w ∷ hs
joined _ w hs = hs

abbrev pub granted : Option ℕ → List ℕ → List ℕ
granted none hs = hs
granted (some w) hs = w ∷ hs

-- A caller asks under an identity that nobody uses; a waiting caller may hang up; a holder releases.
pub data Step (s : World) : World → Type 0 where
  asks :
      (w : ℕ) (aborted : Bool)
      → All (λ x. x ≢ w) s.holders
      → All (λ x. x ≢ w) s.sem.queue
      → Step s (record {
        sem = (acquire s.sem aborted w).0;
        holders = joined (acquire s.sem aborted w).1 w s.holders;
      })
  hangs_up : (w : ℕ) → Step s (record { sem = (on_abort s.sem w).0; holders = s.holders })
  releases :
      (before after : List ℕ) (w : ℕ)
      → s.holders ≡ before ++ w ∷ after
      → Step s (record {
        sem = (release s.sem).0;
        holders = granted (release s.sem).1 (before ++ after);
      })

pub data Reach (s : World) : World → Type 0 where
  here : Reach s s
  next : {t u : World} → Reach s t → Step t u → Reach s u

abbrev pub start : ℕ → ℕ → World
start max max_queue = record { sem = init max max_queue; holders = [] }

pub record IsValid (max max_queue : ℕ) (s : World) : Type 0 where
  pub same_max : s.sem.max ≡ max
  pub same_max_queue : s.sem.max_queue ≡ max_queue
  pub counted : s.sem.running ≡ length s.holders
  pub capped : s.sem.running ≤ max
  pub queue_capped : length s.sem.queue ≤ max_queue
  pub no_idle_slot : 0 < length s.sem.queue → s.sem.running ≡ max

length-splice_out : (w : ℕ) (xs : List ℕ) → length (splice_out w xs) ≤ length xs
unfolding splice_out
length-splice_out w [] = omega arith
length-splice_out w (x ∷ xs) = ground (arith, length-splice_out w xs)

module _ {max max_queue : ℕ} where
  asks-IsValid :
      (s : World) (w : ℕ) (aborted : Bool)
      → IsValid max max_queue s
      → IsValid max max_queue (record {
        sem = (acquire s.sem aborted w).0;
        holders = joined (acquire s.sem aborted w).1 w s.holders;
      })
  unfolding acquire
  asks-IsValid s w aborted v = ground (arith, length-append s.sem.queue (w ∷ []))

  releases-IsValid :
      (s : World) (before after : List ℕ) (w : ℕ)
      → s.holders ≡ before ++ w ∷ after
      → IsValid max max_queue s
      → IsValid max max_queue (record {
        sem = (release s.sem).0;
        holders = granted (release s.sem).1 (before ++ after);
      })
  unfolding release
  releases-IsValid s before after w e v =
      ground (arith, ap-length, length-append before (w ∷ after), length-append before after)
    where
      ap-length : length s.holders ≡ length (before ++ w ∷ after)
      ap-length = cc

  Step-IsValid : {s t : World} → IsValid max max_queue s → Step s t → IsValid max max_queue t
  unfolding on_abort
  Step-IsValid {s} v (asks w aborted _ _) = asks-IsValid s w aborted v
  Step-IsValid {s} v (hangs_up w) = ground (arith, length-splice_out w s.sem.queue)
  Step-IsValid {s} v (releases before after w e) = releases-IsValid s before after w e v

  Reach-IsValid : {s t : World} → IsValid max max_queue s → Reach s t → IsValid max max_queue t
  Reach-IsValid v here = v
  Reach-IsValid v (next r st) = Step-IsValid (Reach-IsValid v r) st

start-IsValid : (max max_queue : ℕ) → IsValid max max_queue (start max max_queue)
unfolding init
start-IsValid max max_queue = omega arith

-- In every state that a new semaphore can reach, the number of slots taken is the number of
-- callers that hold one, it is at most `max`, at most `max_queue` callers wait, and a caller
-- waits only while all slots are taken.
pub Reach-start-IsValid :
    (max max_queue : ℕ) {s : World} → Reach (start max max_queue) s → IsValid max max_queue s
Reach-start-IsValid max max_queue r = Reach-IsValid (start-IsValid max max_queue) r
