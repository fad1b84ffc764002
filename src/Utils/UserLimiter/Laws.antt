-- ===== src/Utils/UserLimiter/Laws.antt =====
-- The limiter's counts are the numbers of handles that are out.
use ppvda.Base.{
  ℕ, zero, suc, ◌+◌, ◌-◌, ◌≤◌, ◌≡◌, refl, ap, ◌≢◌, Bool, true, false, List, [], ◌∷◌, ◌++◌, none,
  some, arith, ite, get_elem?, set, string_discrete, String, ◌↔◌, Option-cases, inl, inr,
}
use ppvda.Base.JsMap
use ppvda.Utils.UserLimiter.{
  PerUserLimiter, init, Call, asks, calls, run, or_else, try_acquire, lower, call_release, release,
}

abbrev one_if : Bool → ℕ
one_if true = 0
one_if false = 1

-- The user's handles that are not released yet.
pub outstanding : String → List (String × Bool) → ℕ
outstanding u [] = 0
outstanding u ((v, released) ∷ hs) =
    ite (string_discrete v u) (one_if released) 0 + outstanding u hs

outstanding-append :
    (u v : String) (hs : List (String × Bool))
    → outstanding u (hs ++ (v, false) ∷ []) ≡ outstanding u hs + ite (string_discrete v u) 1 0
unfolding outstanding
outstanding-append u v [] = ground arith
outstanding-append u v ((w, b) ∷ hs) = omega (arith, outstanding-append u v hs)

outstanding-set :
    (u v : String) (i : ℕ) (hs : List (String × Bool))
    → get_elem? hs i ≡ some (v, false)
    → outstanding u (set hs i (v, true)) + ite (string_discrete v u) 1 0 ≡ outstanding u hs
unfolding outstanding
outstanding-set u v i [] h = cc
outstanding-set u v zero ((w, b) ∷ hs) h = ground arith
outstanding-set u v (suc i) ((w, b) ∷ hs) h = omega (arith, outstanding-set u v i hs h)

pub record IsExact (l : PerUserLimiter) : Type 0 where
  pub counted : (u : String) → or_else 0 (JsMap.get u l.active) ≡ outstanding u l.handles
  pub capped : (u : String) → outstanding u l.handles ≤ l.max_per_user
  pub no_zero : (u : String) → JsMap.get u l.active ≢ some 0

init-IsExact : (max : ℕ) → IsExact (init max)
unfolding init outstanding JsMap.get
init-IsExact max = record { counted = λ u. refl; capped = λ u. omega arith; no_zero = λ u e. cc }

try_acquire-IsExact :
    (l : PerUserLimiter) (user : String) → IsExact l → IsExact (try_acquire l user).0
unfolding try_acquire
try_acquire-IsExact l user v = record {
  counted = λ u. ground (arith, facts u, v.counted user);
  capped = λ u. ground (arith, facts u, v.counted user, v.counted u, v.capped u);
  no_zero = λ u. ground (arith, facts u);
}
  where
    facts :
        (u : String)
        → (or_else 0 (JsMap.get u l.active) ≡ outstanding u l.handles)
          × (JsMap.get u (JsMap.set user (or_else 0 (JsMap.get user l.active) + 1) l.active)
              ≡ ite
                  (string_discrete user u)
                  (some (or_else 0 (JsMap.get user l.active) + 1))
                  (JsMap.get u l.active))
          × (outstanding u (l.handles ++ (user, false) ∷ [])
              ≡ outstanding u l.handles + ite (string_discrete user u) 1 0)
          × (JsMap.get u l.active ≢ some 0)
    facts u = (
      v.counted u,
      JsMap.get-set user u _ l.active,
      outstanding-append u user l.handles,
      v.no_zero u,
    )

get-lower :
    (user u : String) (active : List (String × ℕ))
    → JsMap.get user active ≢ some 0
    → or_else 0 (JsMap.get u (lower user active)) + ite (string_discrete user u) 1 0
      ≡ or_else (ite (string_discrete user u) 1 0) (JsMap.get u active)
unfolding lower
get-lower user u active h = ground (
  arith,
  JsMap.get-delete user u active,
  JsMap.get-set user u (or_else 1 (JsMap.get user active) - 1) active,
)

get-lower-ne-zero :
    (user u : String) (active : List (String × ℕ))
    → JsMap.get u active ≢ some 0
    → JsMap.get u (lower user active) ≢ some 0
unfolding lower
get-lower-ne-zero user u active h = ground (
  arith,
  JsMap.get-delete user u active,
  JsMap.get-set user u (or_else 1 (JsMap.get user active) - 1) active,
)

call_release-IsExact :
    (l : PerUserLimiter) (i : ℕ) (user : String)
    → get_elem? l.handles i ≡ some (user, false)
    → IsExact l
    → IsExact (call_release l i (user, false))
unfolding call_release
call_release-IsExact l i user e v = record {
  counted = λ u. ground (
    arith,
    get-lower user u l.active (v.no_zero user),
    outstanding-set u user i l.handles e,
    v.counted u,
  );
  capped = λ u. omega (arith, outstanding-set u user i l.handles e, v.capped u);
  no_zero = λ u. get-lower-ne-zero user u l.active (v.no_zero u);
}

release-IsExact : (l : PerUserLimiter) (i : ℕ) → IsExact l → IsExact (release l i)
unfolding release call_release
release-IsExact l i v = elim (Option-cases (get_elem? l.handles i)) [
  | inl e ↦ rw (e, release) v
  | inr ((user, true), e) ↦ rw (e, release) v
  | inr ((user, false), e) ↦ rw (e, release) (call_release-IsExact l i user e v)
]

run-IsExact : (l : PerUserLimiter) (cs : List Call) → IsExact l → IsExact (run l cs)
unfolding run
run-IsExact l [] v = v
run-IsExact l (asks user ∷ cs) v =
    run-IsExact (try_acquire l user).0 cs (try_acquire-IsExact l user v)
run-IsExact l (calls i ∷ cs) v = run-IsExact (release l i) cs (release-IsExact l i v)

-- After any calls of a new limiter, the count of each user is the number of the user's handles
-- that are not released, it is at most `maxPerUser`, and no user is kept with the count 0.
pub run-init-IsExact : (max : ℕ) (cs : List Call) → IsExact (run (init max) cs)
run-init-IsExact max cs = run-IsExact (init max) cs (init-IsExact max)

get_elem?-set_self :
    (i : ℕ) (h h' : String × Bool) (hs : List (String × Bool))
    → get_elem? hs i ≡ some h
    → get_elem? (set hs i h') i ≡ some h'
get_elem?-set_self i h h' [] e = cc
get_elem?-set_self zero h h' (x ∷ hs) e = refl
get_elem?-set_self (suc i) h h' (x ∷ hs) e = get_elem?-set_self i h h' hs e

release_done :
    (l : PerUserLimiter) (i : ℕ) (user : String)
    → get_elem? l.handles i ≡ some (user, true)
    → release l i ≡ l
unfolding release call_release
release_done l i user e = rw (e, release)

-- A second call of a release function changes nothing, whatever the state of the limiter.
release_idempotent : (l : PerUserLimiter) (i : ℕ) → release (release l i) i ≡ release l i
unfolding release call_release
release_idempotent l i = elim (Option-cases (get_elem? l.handles i)) [
  | inl e ↦ let same : release l i ≡ l = rw (e, release) in ap (λ m. release m i) same
  | inr ((user, true), e) ↦ ap (λ m. release m i) (release_done l i user e)
  | inr ((user, false), e) ↦
      release_done (release l i) i user
        (rw (e, release) (get_elem?-set_self i (user, false) (user, true) l.handles e))
]

-- A valid limiter refuses a user exactly when the user has `maxPerUser` handles out.
try_acquire-eq-none_iff :
    (l : PerUserLimiter) (user : String)
    → IsExact l
    → ((try_acquire l user).1 ≡ none) ↔ (outstanding user l.handles ≡ l.max_per_user)
unfolding try_acquire
try_acquire-eq-none_iff l user v = ground (arith, v.counted user, v.capped user)
