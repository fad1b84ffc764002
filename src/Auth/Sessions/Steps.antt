-- ===== src/Auth/Sessions/Steps.antt =====
-- Every method keeps the store valid: no key outlives its session.
use ppvda.Base.{
  ℕ, ◌≡◌, refl, ◌≢◌, inl, inr, Bool, List, [], ◌∷◌, Option, none, some, arith, String,
  string_discrete, Bool-cases, ℕ_discrete,
}
use ppvda.Base.JsMap
use ppvda.Auth.Sessions.{
  SessionEntry, SessionStore, empty, buffer, zero_buffer, drop_entry, get_entry, get, has_entry,
  has, key_from, get_key_for_user, delete_entry, delete, drop_where, delete_all_for_user, cleanup,
  zero_keys, clear, is_expired, is_of_user, Call, sets, gets, checks, deletes, reads_key,
  deletes_all, cleans, clears, step, run,
}
use ppvda.Auth.Sessions.Hygiene.{IsValid, empty-IsValid, drop_entry-IsValid, set_session-IsValid}
use ppvda.Auth.Sessions.Hygiene.Heap.{IsZero, IsZero-self, IsZero-zero_buffer}

get_entry-IsValid :
    (s : SessionStore) (sid : String) (now : ℕ) (o : Option SessionEntry)
    → JsMap.get sid s.sessions ≡ o
    → IsValid s
    → IsValid (get_entry s sid now o).0
unfolding get_entry
get_entry-IsValid s sid now none p v = v
get_entry-IsValid s sid now (some e) p v = elim (Bool-cases (is_expired e now)) [
  | inl over ↦ rw over (drop_entry-IsValid s sid e v p)
  | inr live ↦ rw live v
]

has_entry-IsValid :
    (s : SessionStore) (sid : String) (now : ℕ) (o : Option SessionEntry)
    → JsMap.get sid s.sessions ≡ o
    → IsValid s
    → IsValid (has_entry s sid now o).0
unfolding has_entry
has_entry-IsValid s sid now none p v = v
has_entry-IsValid s sid now (some e) p v = elim (Bool-cases (is_expired e now)) [
  | inl over ↦ rw over (drop_entry-IsValid s sid e v p)
  | inr live ↦ rw live v
]

delete_entry-IsValid :
    (s : SessionStore) (sid : String) (o : Option SessionEntry)
    → JsMap.get sid s.sessions ≡ o
    → IsValid s
    → IsValid (delete_entry s sid o)
unfolding delete_entry
delete_entry-IsValid s sid none p v = v
delete_entry-IsValid s sid (some e) p v = drop_entry-IsValid s sid e v p

-- What is left of a walk stays listed when the entry that it is at is dropped.
pub drop_entry-Listed :
    (s : SessionStore) (sid : String) (e : SessionEntry) (es : List (String × SessionEntry))
    → JsMap.get sid es ≡ none
    → JsMap.Listed s.sessions es
    → JsMap.Listed (drop_entry s sid e).sessions es
unfolding drop_entry
drop_entry-Listed s sid e es n h = JsMap.Listed-delete sid s.sessions es n h

key_from-IsValid :
    (user : String) (now : ℕ) (es : List (String × SessionEntry)) (s : SessionStore)
    → JsMap.Unique es
    → JsMap.Listed s.sessions es
    → IsValid s
    → IsValid (key_from user now es s).0
unfolding key_from
key_from-IsValid user now [] s u h v = v
key_from-IsValid user now ((sid, e) ∷ es) s u h v = elim (Bool-cases (is_of_user user e)) [
  | inl own ↦ elim (Bool-cases (is_expired e now)) [
    | inl over ↦
        rw (own, over)
          (key_from-IsValid user now es (drop_entry s sid e) u.1
            (drop_entry-Listed s sid e es u.0 h.1) (drop_entry-IsValid s sid e v h.0))
    | inr live ↦ rw (own, live) v
  ]
  | inr other ↦ rw other (key_from-IsValid user now es s u.1 h.1 v)
]

pub drop_where-IsValid :
    (p : SessionEntry → Bool) (es : List (String × SessionEntry)) (s : SessionStore)
    → JsMap.Unique es
    → JsMap.Listed s.sessions es
    → IsValid s
    → IsValid (drop_where p es s)
unfolding drop_where
drop_where-IsValid p [] s u h v = v
drop_where-IsValid p ((sid, e) ∷ es) s u h v = elim (Bool-cases (p e)) [
  | inl over ↦ rw over (
      drop_where-IsValid p es (drop_entry s sid e) u.1 (drop_entry-Listed s sid e es u.0 h.1)
        (drop_entry-IsValid s sid e v h.0))
  | inr live ↦ rw live (drop_where-IsValid p es s u.1 h.1 v)
]

zero_keys-keeps :
    (es : List (String × SessionEntry)) (heap : List (List ℕ)) (a : ℕ)
    → IsZero (buffer heap a)
    → IsZero (buffer (zero_keys es heap) a)
unfolding zero_keys
zero_keys-keeps [] heap a z = z
zero_keys-keeps ((sid, e) ∷ es) heap a z =
    zero_keys-keeps es (zero_buffer heap e.key) a (IsZero-zero_buffer heap e.key a z)

zero_keys-zeroes :
    (es : List (String × SessionEntry)) (heap : List (List ℕ)) (a : ℕ)
    → (((i : String) (e : SessionEntry) → JsMap.get i es ≡ some e → e.key ≢ a)
        → IsZero (buffer heap a))
    → JsMap.Unique es
    → IsZero (buffer (zero_keys es heap) a)
unfolding zero_keys JsMap.get
zero_keys-zeroes [] heap a z u = z (λ i e p. cc)
zero_keys-zeroes ((sid, e) ∷ es) heap a z u = elim (ℕ_discrete e.key a) [
  | yes same ↦ zero_keys-keeps es (zero_buffer heap e.key) a (rw (← same) (IsZero-self heap e.key))
  | no other ↦
      zero_keys-zeroes es (zero_buffer heap e.key) a
        (λ h. IsZero-zero_buffer heap e.key a (
          z (λ i f p. elim (string_discrete sid i) [
            | yes q ↦ ground arith
            | no q ↦ h i f (ground arith)
          ])))
        u.1
]

pub delete_all_for_user-IsValid :
    (s : SessionStore) (user : String) → IsValid s → IsValid (delete_all_for_user s user)
unfolding delete_all_for_user
delete_all_for_user-IsValid s user v =
    drop_where-IsValid (is_of_user user) s.sessions s v.unique
      (JsMap.Listed-self s.sessions v.unique) v

clear-IsValid : (s : SessionStore) → IsValid s → IsValid (clear s)
unfolding clear JsMap.get
clear-IsValid s v = record {
  unique = tt;
  separate = λ i j e f p q r. cc;
  allocated = λ i e p. cc;
  forgotten = λ a h. zero_keys-zeroes s.sessions s.heap a (v.forgotten a) v.unique;
}

step-IsValid : (s : SessionStore) (c : ℕ × Call) → IsValid s → IsValid (step s c)
unfolding step get has delete get_key_for_user delete_all_for_user cleanup
step-IsValid s (now, sets sid user key) v = set_session-IsValid s sid user key now v
step-IsValid s (now, gets sid) v = get_entry-IsValid s sid now _ refl v
step-IsValid s (now, checks sid) v = has_entry-IsValid s sid now _ refl v
step-IsValid s (now, deletes sid) v = delete_entry-IsValid s sid _ refl v
step-IsValid s (now, reads_key user) v =
    key_from-IsValid user now s.sessions s v.unique (JsMap.Listed-self s.sessions v.unique) v
step-IsValid s (now, deletes_all user) v =
    drop_where-IsValid _ s.sessions s v.unique (JsMap.Listed-self s.sessions v.unique) v
step-IsValid s (now, cleans) v =
    drop_where-IsValid _ s.sessions s v.unique (JsMap.Listed-self s.sessions v.unique) v
step-IsValid s (now, clears) v = clear-IsValid s v

run-IsValid : (s : SessionStore) (cs : List (ℕ × Call)) → IsValid s → IsValid (run s cs)
unfolding run
run-IsValid s [] v = v
run-IsValid s (c ∷ cs) v = run-IsValid (step s c) cs (step-IsValid s c v)

-- After any calls of a new store, at any times, every key buffer that the store ever made is the
-- key of an entry of the map or holds only zeros, no two entries share a buffer, and no session id
-- has two entries.
pub run-empty-IsValid : (cs : List (ℕ × Call)) → IsValid (run empty cs)
run-empty-IsValid cs = run-IsValid empty cs empty-IsValid
