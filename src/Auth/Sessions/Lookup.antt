-- ===== src/Auth/Sessions/Lookup.antt =====
-- What the lookups return: the exact lifetime of a session, and which user's key is given out.
use ppvda.Base.{
  refl, ℕ, ◌+◌, ◌≤◌, ◌≡◌, ◌∙◌, inl, inr, Bool, true, false, List, [], ◌∷◌, ◌++◌, Option, none, some,
  arith, String, if◌then◌else◌, length, Bool-cases, is_some, Option-cases, ltb, subst,
}
use ppvda.Base.JsMap
use ppvda.Auth.Sessions.{
  string_discrete, ite, delete_all_for_user, drop_where, SessionEntry, SessionStore, buffer,
  drop_entry, set_session, get_entry, get, has_entry, has, key_from, get_key_for_user, is_of_user,
  is_expired, zero_existing,
}
use ppvda.Auth.Sessions.Hygiene.{
  IsValid, get-set_session, get-delete-some, length-zero_existing, drop_entry-IsValid,
}
use ppvda.Auth.Sessions.Steps.{drop_entry-Listed}
use ppvda.Auth.Sessions.Hygiene.Heap.{buffer-append_self, buffer-zero_buffer_ne}

abbrev within : Bool → Option (String × List ℕ) → Option (String × List ℕ)
within true o = o
within false o = none

buffer-set_session :
    (s : SessionStore) (sid user : String) (key : List ℕ) (now : ℕ)
    → buffer (set_session s sid user key now).heap (length s.heap) ≡ key
unfolding set_session
buffer-set_session s sid user key now =
    let h = zero_existing s.heap (JsMap.get sid s.sessions) in
    subst (λ n. buffer (h ++ key ∷ []) n ≡ key)
      (length-zero_existing s.heap (JsMap.get sid s.sessions)) (buffer-append_self h key)

-- A session that was set at one time gives its user and the bytes of its key at a later time if
-- at most 24 hours have passed, and otherwise nothing.
pub get-set_session_at :
    (s : SessionStore) (sid user : String) (key : List ℕ) (now later : ℕ)
    → IsValid s
    → (get (set_session s sid user key now) sid later).1
      ≡ (if ltb (now + 86_400_000) later then none else some (user, key))
unfolding get get_entry
get-set_session_at s sid user key now later v =
    ground (arith, get-set_session s sid user key now v sid, buffer-set_session s sid user key now)

-- `has` answers whether `get` would give something at that time, and leaves the store as `get` does.
has-eq-get :
    (s : SessionStore) (sid : String) (now : ℕ)
    → has s sid now ≡ ((get s sid now).0, is_some (get s sid now).1)
unfolding has get has_entry get_entry
has-eq-get s sid now = elim (Option-cases (JsMap.get sid s.sessions)) [
  | inl e ↦ rw (e, has_entry, get_entry)
  | inr (x, e) ↦ rw (e, has_entry, get_entry) (ground arith)
]

-- The entry at the head of a walk, read through `get`.
abbrev pub Gives : SessionStore → String → ℕ → List ℕ → Type 0
Gives s user now key =
    (sid : String) × (e : SessionEntry) × (JsMap.get sid s.sessions ≡ some e)
    × (e.user_id ≡ user)
    × (now ≤ e.created_at + 86_400_000)
    × (key ≡ buffer s.heap e.key)

Gives-drop_entry :
    (s : SessionStore) (k user : String) (d : SessionEntry) (now : ℕ) (key : List ℕ)
    → IsValid s
    → JsMap.get k s.sessions ≡ some d
    → Gives (drop_entry s k d) user now key
    → Gives s user now key
unfolding drop_entry
Gives-drop_entry s k user d now key v h (sid, e, p, q, r, t) =
    let (other, old) = get-delete-some k sid e s.sessions p in
    (
      sid,
      e,
      old,
      q,
      r,
      t
          ∙ buffer-zero_buffer_ne s.heap d.key e.key
              (λ same. other (v.separate k sid d e h old same)),
    )

key_from_sound :
    (user : String) (now : ℕ) (es : List (String × SessionEntry)) (s : SessionStore) (key : List ℕ)
    → JsMap.Unique es
    → JsMap.Listed s.sessions es
    → IsValid s
    → (key_from user now es s).1 ≡ some key
    → Gives s user now key
unfolding key_from is_of_user is_expired
key_from_sound user now [] s key u l v h = cc
key_from_sound user now ((sid, e) ∷ es) s key u l v h = elim (Bool-cases (is_of_user user e)) [
  | inl own ↦ elim (Bool-cases (is_expired e now)) [
    | inl over ↦ Gives-drop_entry s sid user e now key v l.0 (
        key_from_sound user now es (drop_entry s sid e) key u.1
          (drop_entry-Listed s sid e es u.0 l.1) (drop_entry-IsValid s sid e v l.0)
          (rw (own, over) at h))
    | inr live ↦ (sid, e, l.0, ground arith, ground arith, ground arith)
  ]
  | inr other ↦ key_from_sound user now es s key u.1 l.1 v (rw other at h)
]

-- In a valid store `getKeyForUser` gives out only the key of a session of that user that is in
-- the map and at most 24 hours old.
pub get_key_for_user_sound :
    (s : SessionStore) (user : String) (now : ℕ) (key : List ℕ)
    → IsValid s
    → (get_key_for_user s user now).1 ≡ some key
    → Gives s user now key
unfolding get_key_for_user
get_key_for_user_sound s user now key v h =
    key_from_sound user now s.sessions s key v.unique (JsMap.Listed-self s.sessions v.unique) v h

-- What a lookup finds after a walk that drops the entries with a property.
abbrev after_walk :
    (SessionEntry → Bool) → Option SessionEntry → Option SessionEntry → Option SessionEntry
after_walk p none o = o
after_walk p (some e) o = if p e then none else o

get-drop_where :
    (p : SessionEntry → Bool) (es : List (String × SessionEntry)) (s : SessionStore) (i : String)
    → JsMap.Unique es
    → JsMap.get i (drop_where p es s).sessions
      ≡ after_walk p (JsMap.get i es) (JsMap.get i s.sessions)
unfolding drop_where drop_entry JsMap.get
get-drop_where p [] s i u = refl
get-drop_where p ((sid, e) ∷ es) s i u = elim (Bool-cases (p e)) [
  | inl over ↦
      ground
        (arith, get-drop_where p es (drop_entry s sid e) i u.1, JsMap.get-delete sid i s.sessions)
  | inr live ↦ ground (arith, get-drop_where p es s i u.1)
]

abbrev pub unless : (SessionEntry → Bool) → Option SessionEntry → Option SessionEntry
unless p none = none
unless p (some e) = if p e then none else some e

after_walk_self :
    (p : SessionEntry → Bool) (o : Option SessionEntry) → after_walk p o o ≡ unless p o
after_walk_self p none = refl
after_walk_self p (some e) = refl

-- In a valid store `deleteAllForUser` takes away the entries of that user, and only those: every
-- session id is then mapped as before, unless its entry is the user's.
pub get-delete_all_for_user :
    (s : SessionStore) (user sid : String)
    → IsValid s
    → JsMap.get sid (delete_all_for_user s user).sessions
      ≡ unless (λ e. ite (string_discrete e.user_id user) true false) (JsMap.get sid s.sessions)
unfolding delete_all_for_user is_of_user
get-delete_all_for_user s user sid v =
    get-drop_where _ s.sessions s sid v.unique ∙ after_walk_self _ (JsMap.get sid s.sessions)
