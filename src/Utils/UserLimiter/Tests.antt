-- ===== src/Utils/UserLimiter/Tests.antt =====
-- Runs of the limiter, and its theorems at concrete inputs.
use ppvda.Base.{◌≡◌, refl, List, [], ◌∷◌, string_discrete}
use ppvda.Base.JsMap
use ppvda.Utils.UserLimiter.{PerUserLimiter, init, try_acquire, release, Call, asks, calls, run}
use ppvda.Utils.UserLimiter.Laws.{IsExact, run-init-IsExact}

abbrev history : List Call
history = asks "ann" ∷ asks "bob" ∷ asks "ann" ∷ calls 0 ∷ calls 0 ∷ asks "ann" ∷ []

-- The third and the fourth "ann" are within the cap of 2, since handle 0 was released, once.
history_runs : (run (init 2) history).active ≡ ("ann", 2) ∷ ("bob", 1) ∷ []
unfolding run init try_acquire release JsMap.get JsMap.set string_discrete
history_runs = refl

run-init-IsExact_example : IsExact (run (init 2) history)
run-init-IsExact_example = run-init-IsExact 2 history

abbrev limiter : PerUserLimiter
limiter = run (init 2) history
