-- ===== src/Auth/Limiter.antt =====
-- `AccountLimiter` of src/auth/index.ts. The SHA-256 digest of a username is the parameter
-- `digest`, `Date.now()` is the argument `now`, and `entry.count++` writes the entry in place.
pub mod Laws
mod Tests
use ppvda.Base.{
  ℕ, ◌+◌, ◌-◌, Bool, true, false, List, [], ◌∷◌, Option, none, some, ltb, leb, String,
  if◌then◌else◌, length,
}
use ppvda.Base.JsMap

pub record Entry : Type 0 where
  pub count : ℕ
  pub window_start : ℕ

pub record AccountLimiter : Type 0 where
  pub failures : List (String × Entry)
  pub max_failures : ℕ
  pub window_ms : ℕ
  pub max_entries : ℕ

pub init : AccountLimiter
init = record { failures = []; max_failures = 10; window_ms = 900_000; max_entries = 10_000 }

-- `now - entry.windowStart > this.windowMs`; a clock that went back gives no negative number here,
-- and the test is false either way.
pub is_over : AccountLimiter → Entry → ℕ → Bool
is_over l e now = ltb l.window_ms (now - e.window_start)

-- `this.failures.keys().next().value` and its deletion.
pub delete_oldest : List (String × Entry) → List (String × Entry)
delete_oldest [] = []
delete_oldest ((k, e) ∷ m) = JsMap.delete k ((k, e) ∷ m)

pub open_window : AccountLimiter → String → ℕ → AccountLimiter
unfolding delete_oldest
open_window l key now =
    let kept =
      if leb l.max_entries (length l.failures) then delete_oldest l.failures else l.failures in
    record l { failures = JsMap.set key (record { count = 1; window_start = now }) kept }

pub count_failure : AccountLimiter → String → ℕ → Option Entry → AccountLimiter
unfolding open_window is_over
count_failure l key now none = open_window l key now
count_failure l key now (some e) =
    if is_over l e now
    then open_window l key now
    else record l { failures = JsMap.set key (record e { count = e.count + 1 }) l.failures }

pub limits : AccountLimiter → ℕ → Option Entry → Bool
unfolding is_over
limits l now none = false
limits l now (some e) = if is_over l e now then false else leb l.max_failures e.count

-- The loop of `cleanup`.
pub prune :
    AccountLimiter → ℕ → List (String × Entry) → List (String × Entry) → List (String × Entry)
unfolding is_over
prune l now [] m = m
prune l now ((k, e) ∷ es) m = prune l now es (if is_over l e now then JsMap.delete k m else m)

pub cleanup : AccountLimiter → ℕ → AccountLimiter
unfolding prune
cleanup l now = record l { failures = prune l now l.failures l.failures }

module _ (digest : String → String) where
  pub is_limited : AccountLimiter → String → ℕ → Bool
  unfolding limits
  is_limited l user now = limits l now (JsMap.get (digest user) l.failures)

  pub record_failure : AccountLimiter → String → ℕ → AccountLimiter
  unfolding count_failure
  record_failure l user now = count_failure l (digest user) now (JsMap.get (digest user) l.failures)

  pub reset : AccountLimiter → String → AccountLimiter
  reset l user = record l { failures = JsMap.delete (digest user) l.failures }

-- What the routes and the timer do with a limiter.
pub data Call : Type 0 where
  fails resets : String → Call
  cleans : Call

module _ (digest : String → String) where
  pub step : AccountLimiter → ℕ × Call → AccountLimiter
  unfolding record_failure reset cleanup
  step l (now, fails user) = record_failure digest l user now
  step l (now, resets user) = reset digest l user
  step l (now, cleans) = cleanup l now

  pub run : AccountLimiter → List (ℕ × Call) → AccountLimiter
  unfolding step
  run l [] = l
  run l (c ∷ cs) = run (step l c) cs
