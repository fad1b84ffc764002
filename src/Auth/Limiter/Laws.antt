-- ===== src/Auth/Limiter/Laws.antt =====
-- When an account is locked out, what a failure of one account does to the others, and how many
-- entries the map holds.
use ppvda.Base.{
  false, ℕ, suc, ◌+◌, ◌≤◌, ◌<◌, ◌≡◌, refl, ◌≢◌, ◌&&◌, List, [], ◌∷◌, Option, none, some, arith, leb,
  String, length, All, Option-cases, inl, inr,
}
use ppvda.Base.JsMap
use ppvda.Auth.Limiter.{
  Entry, AccountLimiter, init, is_over, delete_oldest, open_window, count_failure, limits, prune,
  is_limited, record_failure, Call, fails, resets, cleans, step, run,
}

pub record IsBounded (l : AccountLimiter) : Type 0 where
  pub bounded : length l.failures ≤ l.max_entries
  pub room : l.max_entries ≡ 10_000
  pub limit : l.max_failures ≡ 10
  pub window : l.window_ms ≡ 900_000

length-delete_oldest :
    (m : List (String × Entry)) → 0 < length m → length (delete_oldest m) < length m
unfolding delete_oldest JsMap.delete
length-delete_oldest [] h = h
length-delete_oldest ((k, e) ∷ m) h = ground (arith, JsMap.length-delete-le k m)

open_window-IsBounded :
    (l : AccountLimiter) (key : String) (now : ℕ) → IsBounded l → IsBounded (open_window l key now)
unfolding open_window
open_window-IsBounded l key now b = ground (
  arith,
  length-delete_oldest l.failures,
  JsMap.length-set key (record { count = 1; window_start = now }) (delete_oldest l.failures),
  JsMap.length-set key (record { count = 1; window_start = now }) l.failures,
)

count_failure-IsBounded :
    (l : AccountLimiter) (key : String) (now : ℕ)
    → IsBounded l
    → IsBounded (count_failure l key now (JsMap.get key l.failures))
unfolding count_failure
count_failure-IsBounded l key now b = go (JsMap.get key l.failures) refl
  where
    go : (o : Option Entry) → JsMap.get key l.failures ≡ o → IsBounded (count_failure l key now o)
    go none e = open_window-IsBounded l key now b
    go (some x) e = ground (
      arith,
      open_window-IsBounded l key now b,
      JsMap.length-set_of_some key x (record x { count = x.count + 1 }) l.failures e,
    )

length-prune :
    (l : AccountLimiter) (now : ℕ) (es m : List (String × Entry))
    → length (prune l now es m) ≤ length m
unfolding prune
length-prune l now [] m = omega arith
length-prune l now ((k, e) ∷ es) m = ground (
  arith,
  length-prune l now es m,
  length-prune l now es (JsMap.delete k m),
  JsMap.length-delete-le k m,
)

module _ (digest : String → String) where
  step-IsBounded : (l : AccountLimiter) (c : ℕ × Call) → IsBounded l → IsBounded (step digest l c)
  unfolding step
  step-IsBounded l (now, fails user) b = count_failure-IsBounded l (digest user) now b
  step-IsBounded l (now, resets user) b =
      ground (arith, JsMap.length-delete-le (digest user) l.failures)
  step-IsBounded l (now, cleans) b = ground (arith, length-prune l now l.failures l.failures)

  run-IsBounded :
      (l : AccountLimiter) (cs : List (ℕ × Call)) → IsBounded l → IsBounded (run digest l cs)
  unfolding run
  run-IsBounded l [] b = b
  run-IsBounded l (c ∷ cs) b = run-IsBounded (step digest l c) cs (step-IsBounded l c b)

pub init-IsBounded : IsBounded init
unfolding init
init-IsBounded = omega arith

-- After any calls of a new limiter, at any times, its map holds at most 10,000 entries.
run-init-bounded :
    (digest : String → String) (cs : List (ℕ × Call))
    → length (run digest init cs).failures ≤ 10_000
run-init-bounded digest cs = let b = run-IsBounded digest init cs init-IsBounded in omega arith

module _ (digest : String → String) where
  -- One failure after another, for one user.
  unfoldable pub record_all : AccountLimiter → String → List ℕ → AccountLimiter
  record_all l user [] = l
  record_all l user (t ∷ ts) = record_all (record_failure digest l user t) user ts

  -- Within a window the entry counts the failures.
  abbrev Counts : AccountLimiter → String → ℕ → ℕ → Type 0
  Counts l key c w =
      (JsMap.get key l.failures ≡ some (record { count = c; window_start = w }))
      × (l.window_ms ≡ 900_000)
      × (l.max_failures ≡ 10)

  first-Counts :
      (l : AccountLimiter) (user : String) (t : ℕ)
      → IsBounded l
      → JsMap.get (digest user) l.failures ≡ none
      → Counts (record_failure digest l user t) (digest user) 1 t
  unfolding record_failure open_window
  first-Counts l user t b h =
      rw (h, record_failure, count_failure)
        (ground (
          arith,
          JsMap.get-set (digest user) (digest user) (record { count = 1; window_start = t })
              (delete_oldest l.failures),
          JsMap.get-set (digest user) (digest user) (record { count = 1; window_start = t })
              l.failures,
        ))

  next-Counts :
      (l : AccountLimiter) (user : String) (t c w : ℕ)
      → t ≤ w + 900_000
      → Counts l (digest user) c w
      → Counts (record_failure digest l user t) (digest user) (suc c) w
  unfolding record_failure
  next-Counts l user t c w h n =
      rw (n.0, record_failure, count_failure)
        (ground (
          arith,
          JsMap.get-set (digest user) (digest user) (record { count = c + 1; window_start = w })
              l.failures,
        ))

  record_all-Counts :
      (l : AccountLimiter) (user : String) (c w : ℕ) (ts : List ℕ)
      → All (λ t. t ≤ w + 900_000) ts
      → Counts l (digest user) c w
      → Counts (record_all l user ts) (digest user) (c + length ts) w
  unfolding record_all
  record_all-Counts l user c w [] h n = ground arith
  record_all-Counts l user c w (t ∷ ts) h n =
      let more =
        record_all-Counts (record_failure digest l user t) user (suc c) w ts h.1
          (next-Counts l user t c w h.0 n) in
      ground arith

  -- A user without an entry whose attempts fail at `first` and then at the times `rest`, all within
  -- 15 minutes of `first`, is limited at a time exactly if there were 10 failures or more and the
  -- time is at most 15 minutes after `first`.
  pub is_limited-record_all :
      (l : AccountLimiter) (user : String) (first : ℕ) (rest : List ℕ) (now : ℕ)
      → IsBounded l
      → JsMap.get (digest user) l.failures ≡ none
      → All (λ t. t ≤ first + 900_000) rest
      → is_limited digest (record_all l user (first ∷ rest)) user now
        ≡ (leb now (first + 900_000) && leb 10 (1 + length rest))
  unfolding is_limited record_all is_over
  is_limited-record_all l user first rest now b h within =
      let n =
        record_all-Counts (record_failure digest l user first) user 1 first rest within
          (first-Counts l user first b h) in
      rw (n.0, limits) (ground arith)

  -- While the map has room, a failure of one user changes nothing for a user with another digest.
  is_limited-record_failure_ne :
      (l : AccountLimiter) (user other : String) (now later : ℕ)
      → digest user ≢ digest other
      → length l.failures < l.max_entries
      → is_limited digest (record_failure digest l user now) other later
        ≡ is_limited digest l other later
  unfolding is_limited record_failure
  is_limited-record_failure_ne l user other now later n room =
      elim (Option-cases (JsMap.get (digest user) l.failures)) [
        | inl e ↦
            rw (e, count_failure)
              (ground (
                arith,
                JsMap.get-set (digest user) (digest other)
                    (record { count = 1; window_start = now }) l.failures,
              ))
        | inr (x, e) ↦
            rw (e, count_failure)
              (ground (
                arith,
                JsMap.get-set (digest user) (digest other)
                    (record { count = 1; window_start = now }) l.failures,
                JsMap.get-set (digest user) (digest other) (record x { count = x.count + 1 })
                    l.failures,
              ))
      ]

  -- A failure of a user who has an entry leaves every key of the map in its place while there is
  -- room: a window that opens anew does not move to the end, so the first key is the one whose
  -- entry was made first, not the one used least recently.
  keys-record_failure :
      (l : AccountLimiter) (user : String) (now : ℕ) (e : Entry)
      → JsMap.get (digest user) l.failures ≡ some e
      → length l.failures < l.max_entries
      → JsMap.keys (record_failure digest l user now).failures ≡ JsMap.keys l.failures
  unfolding record_failure
  keys-record_failure l user now e h room =
      rw (h, count_failure)
        (ground (
          arith,
          JsMap.keys-set (digest user) e (record { count = 1; window_start = now }) l.failures h,
          JsMap.keys-set (digest user) e (record e { count = e.count + 1 }) l.failures h,
        ))

pub is_limited-init :
    (digest : String → String) (user : String) (now : ℕ) → is_limited digest init user now ≡ false
unfolding is_limited init limits JsMap.get
is_limited-init digest user now = refl
