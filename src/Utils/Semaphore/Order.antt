-- ===== src/Utils/Semaphore/Order.antt =====
-- The order in which waiting callers are served, and what a hang-up changes of it.
use ppvda.Base.{ℕ, zero, suc, ◌≡◌, refl, ap, ◌≢◌, List, [], ◌∷◌, ◌++◌, arith, length, All, ◌∙◌}
use ppvda.Utils.Semaphore.{BoundedSemaphore, splice_out, on_abort, release}
use ppvda.Utils.Semaphore.Invariant.{granted}

-- The waiters that `n` releases in a row let in, the first one first.
pub served : ℕ → BoundedSemaphore → List ℕ
served zero s = []
served (suc n) s = granted (release s).1 (served n (release s).0)

served-queue : (ws : List ℕ) (s : BoundedSemaphore) → s.queue ≡ ws → served (length ws) s ≡ ws
unfolding served release
served-queue [] s e = refl
served-queue (w ∷ ws) s e = rw (e, release) (ap (◌∷◌ w) (served-queue ws _ refl))

splice_out-middle :
    (w : ℕ) (before after : List ℕ)
    → All (λ x. x ≢ w) before
    → splice_out w (before ++ w ∷ after) ≡ before ++ after
unfolding splice_out
splice_out-middle w [] after h = ground arith
splice_out-middle w (x ∷ before) after h = ground (arith, splice_out-middle w before after h.1)

-- When a waiting caller hangs up, the releases that follow serve every other waiter, in the order
-- in which they asked, and never the one that hung up.
served-on_abort :
    (s : BoundedSemaphore) (w : ℕ) (before after : List ℕ)
    → s.queue ≡ before ++ w ∷ after
    → All (λ x. x ≢ w) before
    → served (length (before ++ after)) (on_abort s w).0 ≡ before ++ after
unfolding on_abort
served-on_abort s w before after e h =
    served-queue (before ++ after) _ (ap (splice_out w) e ∙ splice_out-middle w before after h)
