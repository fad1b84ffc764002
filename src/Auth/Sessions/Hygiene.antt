-- ===== src/Auth/Sessions/Hygiene.antt =====
-- Which key buffers still hold a key: those of the entries in the map, and no other.
pub mod Heap
use ppvda.Base.{
  ℕ, ◌+◌, ◌<◌, ◌≡◌, refl, ap, sym, ◌∙◌, ◌≢◌, inl, inr, Bool, true, false, List, [], ◌∷◌, ◌++◌,
  Option, none, some, arith, String, ite, if◌then◌else◌, length, string_discrete, Option-cases,
  Bool-cases, All, ◌==◌, ==_iff, length-append,
}
use ppvda.Base.JsMap
use ppvda.Auth.Sessions.{
  SessionEntry, SessionStore, empty, buffer, zero_buffer, drop_entry, zero_existing, set_session,
  get_entry, get, has_entry, has, key_from, get_key_for_user, delete_entry, delete, drop_where,
  delete_all_for_user, cleanup, zero_keys, clear, is_expired, Call, sets, gets, checks, deletes,
  reads_key, deletes_all, cleans, clears, step, run,
}
use Heap.{
  IsZero, IsZero-self, buffer-zero_buffer_ne, length-zero_buffer, buffer-append_ne,
  IsZero-zero_buffer,
}

pub record IsValid (s : SessionStore) : Type 0 where
  pub unique : JsMap.Unique s.sessions
  pub separate :
      (i j : String) (e f : SessionEntry)
      → JsMap.get i s.sessions ≡ some e
      → JsMap.get j s.sessions ≡ some f
      → e.key ≡ f.key
      → i ≡ j
  pub allocated :
      (i : String) (e : SessionEntry) → JsMap.get i s.sessions ≡ some e → e.key < length s.heap
  pub forgotten :
      (a : ℕ)
      → ((i : String) (e : SessionEntry) → JsMap.get i s.sessions ≡ some e → e.key ≢ a)
      → IsZero (buffer s.heap a)

pub empty-IsValid : IsValid empty
unfolding empty JsMap.get buffer
empty-IsValid = record {
  unique = tt;
  separate = λ i j e f p q r. cc;
  allocated = λ i e p. cc;
  forgotten = λ a h. tt;
}

-- An entry that is left after a deletion stood there before, under another key.
pub get-delete-some :
    (k i : String) (e : SessionEntry) (m : List (String × SessionEntry))
    → JsMap.get i (JsMap.delete k m) ≡ some e
    → (k ≢ i) × (JsMap.get i m ≡ some e)
get-delete-some k i e m h =
    (ground (arith, JsMap.get-delete k i m), ground (arith, JsMap.get-delete k i m))

module _ (s : SessionStore) (sid : String) (e : SessionEntry) (v : IsValid s)
    (here : JsMap.get sid s.sessions ≡ some e) where
  drop_entry-forgotten :
      (a : ℕ)
      → ((i : String) (f : SessionEntry)
          → JsMap.get i (drop_entry s sid e).sessions ≡ some f
          → f.key ≢ a)
      → IsZero (buffer (drop_entry s sid e).heap a)
  unfolding drop_entry
  drop_entry-forgotten a h = elim (Bool-cases (e.key == a)) [
    | inl same ↦ rw (← (==_iff e.key a).0 same) (IsZero-self s.heap e.key)
    | inr other ↦ rw (buffer-zero_buffer_ne s.heap e.key a (ground arith)) (
        v.forgotten a (λ i f p. elim (string_discrete sid i) [
          | yes q ↦ ground arith
          | no q ↦ h i f (ground (arith, JsMap.get-delete sid i s.sessions))
        ]))
  ]

  pub drop_entry-IsValid : IsValid (drop_entry s sid e)
  unfolding drop_entry
  drop_entry-IsValid = record {
    unique = JsMap.delete-Unique sid s.sessions v.unique;
    separate = λ i j f g p q r.
        v.separate i j f g (get-delete-some sid i f s.sessions p).1
          (get-delete-some sid j g s.sessions q).1 r;
    allocated = λ i f p. omega (
      arith,
      v.allocated i f (get-delete-some sid i f s.sessions p).1,
      length-zero_buffer s.heap e.key,
    );
    forgotten = drop_entry-forgotten;
  }

pub length-zero_existing :
    (h : List (List ℕ)) (o : Option SessionEntry) → length (zero_existing h o) ≡ length h
unfolding zero_existing
length-zero_existing h none = refl
length-zero_existing h (some e) = length-zero_buffer h e.key

-- The entry that a `set` puts in.
abbrev pub fresh_entry : SessionStore → String → ℕ → SessionEntry
fresh_entry s user now = record { user_id = user; key = length s.heap; created_at = now }

module _ (s : SessionStore) (sid user : String) (key : List ℕ) (now : ℕ) (v : IsValid s) where
  pub get-set_session :
      (i : String)
      → JsMap.get i (set_session s sid user key now).sessions
        ≡ ite (string_discrete sid i) (some (fresh_entry s user now)) (JsMap.get i s.sessions)
  unfolding set_session
  get-set_session i =
      rw (length-zero_existing s.heap (JsMap.get sid s.sessions)) (JsMap.get-set sid i _ s.sessions)

  set_session-separate :
      (i j : String) (e f : SessionEntry)
      → JsMap.get i (set_session s sid user key now).sessions ≡ some e
      → JsMap.get j (set_session s sid user key now).sessions ≡ some f
      → e.key ≡ f.key
      → i ≡ j
  set_session-separate i j e f p q r = ground (
    arith,
    get-set_session i,
    get-set_session j,
    v.separate i j e f,
    v.allocated i e,
    v.allocated j f,
  )

  set_session-allocated :
      (i : String) (e : SessionEntry)
      → JsMap.get i (set_session s sid user key now).sessions ≡ some e
      → e.key < length (set_session s sid user key now).heap
  unfolding set_session
  set_session-allocated i e p = ground (
    arith,
    get-set_session i,
    v.allocated i e,
    length-zero_existing s.heap (JsMap.get sid s.sessions),
    length-append (zero_existing s.heap (JsMap.get sid s.sessions)) (key ∷ []),
  )

  -- What the map forgets before the new buffer is made.
  zero_existing-forgotten :
      (a : ℕ)
      → length s.heap ≢ a
      → ((i : String) (e : SessionEntry)
          → JsMap.get i (set_session s sid user key now).sessions ≡ some e
          → e.key ≢ a)
      → (o : Option SessionEntry) → JsMap.get sid s.sessions ≡ o
      → IsZero (buffer (zero_existing s.heap o) a)
  unfolding zero_existing
  zero_existing-forgotten a n h none p =
      v.forgotten a (λ i e q. h i e (ground (arith, get-set_session i)))
  zero_existing-forgotten a n h (some e) p = elim (Bool-cases (e.key == a)) [
    | inl same ↦ rw (← (==_iff e.key a).0 same) (IsZero-self s.heap e.key)
    | inr other ↦ rw (buffer-zero_buffer_ne s.heap e.key a (ground arith)) (
        v.forgotten a (λ i f q. elim (string_discrete sid i) [
          | yes r ↦ ground arith
          | no r ↦ h i f (ground (arith, get-set_session i))
        ]))
  ]

  set_session-forgotten :
      (a : ℕ)
      → ((i : String) (e : SessionEntry)
          → JsMap.get i (set_session s sid user key now).sessions ≡ some e
          → e.key ≢ a)
      → IsZero (buffer (set_session s sid user key now).heap a)
  unfolding set_session
  set_session-forgotten a h =
      let fresh : length s.heap ≢ a =
        h sid (fresh_entry s user now) (ground (arith, get-set_session sid)) in
      rw
        (buffer-append_ne (zero_existing s.heap (JsMap.get sid s.sessions)) key a
          (λ e. fresh (sym (length-zero_existing s.heap (JsMap.get sid s.sessions)) ∙ e)))
        (zero_existing-forgotten a fresh h (JsMap.get sid s.sessions) refl)

  pub set_session-IsValid : IsValid (set_session s sid user key now)
  unfolding set_session
  set_session-IsValid = record {
    unique = JsMap.set-Unique sid _ s.sessions v.unique;
    separate = set_session-separate;
    allocated = set_session-allocated;
    forgotten = set_session-forgotten;
  }
