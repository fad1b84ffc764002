-- ===== src/Utils/Semaphore/Tests.antt =====
-- Runs of the semaphore, and its theorems at concrete inputs.
use ppvda.Base.{◌≡◌, refl, true, false, [], ◌∷◌, some, arith}
use ppvda.Utils.Semaphore.{
  BoundedSemaphore, aborted_error, queue_full_error, acquire, on_abort, release, init, splice_out,
}
use ppvda.Utils.Semaphore.Invariant.{Step, Reach, start, IsValid, granted, Reach-start-IsValid}

abbrev busy : BoundedSemaphore
busy = record { running = 1; queue = 4 ∷ 5 ∷ 6 ∷ []; max = 1; max_queue = 3 }

full_queue_refuses : (acquire busy false 7).1 ≡ queue_full_error
unfolding acquire
full_queue_refuses = refl

hung_up_before_asking : (acquire busy true 7).1 ≡ aborted_error
unfolding acquire
hung_up_before_asking = refl

release_serves_first : (release busy).1 ≡ some 4
unfolding release
release_serves_first = refl

-- One slot: 7 takes it, 8 waits and hangs up, and 7 releases.
Reach-start-IsValid_example : IsValid 1 2 (record {
  sem = (release (on_abort (acquire (acquire (start 1 2).sem false 7).0 false 8).0 8).0).0;
  holders =
      granted (release (on_abort (acquire (acquire (start 1 2).sem false 7).0 false 8).0 8).0).1 [];
})
unfolding init acquire on_abort splice_out release
Reach-start-IsValid_example = Reach-start-IsValid 1 2 (
    Reach.next
      (Reach.next
        (Reach.next (Reach.next Reach.here (Step.asks 7 false tt tt))
          (Step.asks 8 false (omega arith) tt))
        (Step.hangs_up 8))
      (Step.releases [] [] 7 refl))
