-- ===== src/Auth/Sessions.antt =====
-- `SessionStore` of src/auth/sessions.ts. A `Buffer` that the store owns is an address in `heap`,
-- the buffers made so far in their order; one that a method hands out is a copy, so its bytes.
-- `Date.now()` is the argument `now`. A walk over the map deletes only the entry that it is at, so
-- it meets the entries that the map had when it began.
pub mod Hygiene
pub mod Lookup
pub mod Steps
mod Tests
use ppvda.Base.{
  ℕ, ◌+◌, Bool, true, false, List, [], ◌∷◌, ◌++◌, Option, none, some, ltb, String, ite,
  if◌then◌else◌, length, get_elem?, set, replicate, string_discrete,
}
use ppvda.Base.JsMap

abbrev pub session_ttl_ms : ℕ
session_ttl_ms = 86_400_000

pub record SessionEntry : Type 0 where
  pub user_id : String
  pub key : ℕ
  pub created_at : ℕ

pub record SessionStore : Type 0 where
  pub sessions : List (String × SessionEntry)
  pub heap : List (List ℕ)

unfoldable pub empty : SessionStore
empty = record { sessions = []; heap = [] }

-- The bytes at an address.
unfoldable pub buffer : List (List ℕ) → ℕ → List ℕ
buffer [] a = []
buffer (b ∷ h) ℕ.zero = b
buffer (b ∷ h) (ℕ.suc a) = buffer h a

-- `buf.fill(0)`
pub zero_buffer : List (List ℕ) → ℕ → List (List ℕ)
unfolding buffer
zero_buffer heap a = set heap a (replicate (length (buffer heap a)) 0)

-- `zeroBuffer(entry.key); this.sessions.delete(sid)`
pub drop_entry : SessionStore → String → SessionEntry → SessionStore
unfolding zero_buffer
drop_entry s sid e = record {
  sessions = JsMap.delete sid s.sessions;
  heap = zero_buffer s.heap e.key;
}

pub is_expired : SessionEntry → ℕ → Bool
is_expired e now = ltb (e.created_at + session_ttl_ms) now

pub zero_existing : List (List ℕ) → Option SessionEntry → List (List ℕ)
zero_existing heap none = heap
zero_existing heap (some e) = zero_buffer heap e.key

unfoldable pub set_session : SessionStore → String → String → List ℕ → ℕ → SessionStore
unfolding zero_existing
set_session s sid user master_key now =
    let heap = zero_existing s.heap (JsMap.get sid s.sessions) in
    record {
      sessions =
          JsMap.set sid (record { user_id = user; key = length heap; created_at = now }) s.sessions;
      heap = heap ++ master_key ∷ [];
    }

get_entry :
    SessionStore → String → ℕ → Option SessionEntry → SessionStore × Option (String × List ℕ)
unfolding is_expired
get_entry s sid now none = (s, none)
get_entry s sid now (some e) =
    if is_expired e now
    then (drop_entry s sid e, none)
    else (s, some (e.user_id, buffer s.heap e.key))

unfoldable pub get : SessionStore → String → ℕ → SessionStore × Option (String × List ℕ)
unfolding get_entry
get s sid now = get_entry s sid now (JsMap.get sid s.sessions)

has_entry : SessionStore → String → ℕ → Option SessionEntry → SessionStore × Bool
unfolding is_expired
has_entry s sid now none = (s, false)
has_entry s sid now (some e) = if is_expired e now then (drop_entry s sid e, false) else (s, true)

unfoldable pub has : SessionStore → String → ℕ → SessionStore × Bool
unfolding has_entry
has s sid now = has_entry s sid now (JsMap.get sid s.sessions)

pub is_of_user : String → SessionEntry → Bool
is_of_user user e = ite (string_discrete e.user_id user) true false

-- The loop of `getKeyForUser`, over the entries that are left.
pub key_from :
    String → ℕ → List (String × SessionEntry) → SessionStore → SessionStore × Option (List ℕ)
unfolding is_expired is_of_user
key_from user now [] s = (s, none)
key_from user now ((sid, e) ∷ es) s =
    let dropped = key_from user now es (drop_entry s sid e) in
    let kept = key_from user now es s in
    if is_of_user user e
    then if is_expired e now then dropped else (s, some (buffer s.heap e.key))
    else kept

unfoldable pub get_key_for_user : SessionStore → String → ℕ → SessionStore × Option (List ℕ)
unfolding key_from
get_key_for_user s user now = key_from user now s.sessions s

delete_entry : SessionStore → String → Option SessionEntry → SessionStore
delete_entry s sid none = s
delete_entry s sid (some e) = drop_entry s sid e

pub delete : SessionStore → String → SessionStore
unfolding delete_entry
delete s sid = delete_entry s sid (JsMap.get sid s.sessions)

-- A walk that drops the entries with a property: the loops of `deleteAllForUser` and of the timer.
pub drop_where : (SessionEntry → Bool) → List (String × SessionEntry) → SessionStore → SessionStore
drop_where p [] s = s
drop_where p ((sid, e) ∷ es) s = drop_where p es (if p e then drop_entry s sid e else s)

pub delete_all_for_user : SessionStore → String → SessionStore
unfolding drop_where is_of_user
delete_all_for_user s user = drop_where (is_of_user user) s.sessions s

-- The callback that `startCleanup` sets on a timer.
pub cleanup : SessionStore → ℕ → SessionStore
unfolding drop_where is_expired
cleanup s now = drop_where (λ e. is_expired e now) s.sessions s

zero_keys : List (String × SessionEntry) → List (List ℕ) → List (List ℕ)
zero_keys [] heap = heap
zero_keys ((sid, e) ∷ es) heap = zero_keys es (zero_buffer heap e.key)

pub clear : SessionStore → SessionStore
unfolding zero_keys
clear s = record { sessions = []; heap = zero_keys s.sessions s.heap }

-- A call of a method, with the time at which it is made.
pub data Call : Type 0 where
  sets : String → String → List ℕ → Call
  gets checks deletes : String → Call
  reads_key deletes_all : String → Call
  cleans clears : Call

pub step : SessionStore → ℕ × Call → SessionStore
step s (now, sets sid user key) = set_session s sid user key now
step s (now, gets sid) = (get s sid now).0
step s (now, checks sid) = (has s sid now).0
step s (now, deletes sid) = delete s sid
step s (now, reads_key user) = (get_key_for_user s user now).0
step s (now, deletes_all user) = delete_all_for_user s user
step s (now, cleans) = cleanup s now
step s (now, clears) = clear s

unfoldable pub run : SessionStore → List (ℕ × Call) → SessionStore
unfolding step
run s [] = s
run s (c ∷ cs) = run (step s c) cs
