-- ===== src/Utils/UserLimiter.antt =====
-- `PerUserLimiter` of src/utils/semaphore.ts. The release function that `tryAcquire` returns
-- closes over its user and a flag: `handles` has these pairs, and a handle is a place in it.
pub mod Laws
mod Tests
use ppvda.Base.{
  ℕ, suc, ◌+◌, ◌-◌, Bool, true, false, List, [], ◌∷◌, ◌++◌, Option, none, some, leb, String,
  if◌then◌else◌, length, get_elem?, set,
}
use ppvda.Base.JsMap

pub record PerUserLimiter : Type 0 where
  pub max_per_user : ℕ
  pub active : List (String × ℕ)
  pub handles : List (String × Bool)

pub init : ℕ → PerUserLimiter
init max_per_user = record { max_per_user = max_per_user; active = []; handles = [] }

-- `?? d`
abbrev pub or_else : ℕ → Option ℕ → ℕ
or_else d none = d
or_else d (some n) = n

pub try_acquire : PerUserLimiter → String → PerUserLimiter × Option ℕ
try_acquire l user =
    let count = or_else 0 (JsMap.get user l.active) in
    if leb l.max_per_user count then (l, none) else (
      record l {
        active = JsMap.set user (count + 1) l.active;
        handles = l.handles ++ (user, false) ∷ [];
      },
      some (length l.handles),
    )

pub lower : String → List (String × ℕ) → List (String × ℕ)
lower user active =
    let n = or_else 1 (JsMap.get user active) in
    if leb n 1 then JsMap.delete user active else JsMap.set user (n - 1) active

-- The body of the release function with this user and flag, at this place.
call_release : PerUserLimiter → ℕ → String × Bool → PerUserLimiter
unfolding lower
call_release l i (user, true) = l
call_release l i (user, false) = record l {
  handles = set l.handles i (user, true);
  active = lower user l.active;
}

-- A call of the handle; there is no handle that `tryAcquire` did not return.
pub release : PerUserLimiter → ℕ → PerUserLimiter
unfolding call_release
release l i = elim (get_elem? l.handles i) [ none ↦ l | some h ↦ call_release l i h ]

-- What the routes do with a limiter: ask for a user, or call a handle, any number of times.
pub data Call : Type 0 where
  asks : String → Call
  calls : ℕ → Call

pub run : PerUserLimiter → List Call → PerUserLimiter
run l [] = l
run l (asks user ∷ cs) = run (try_acquire l user).0 cs
run l (calls i ∷ cs) = run (release l i) cs
