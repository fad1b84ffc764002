-- ===== src/Db/Laws.antt =====
-- What the tables keep: each row under its id, no id or user name twice, and no delegation without its
-- user.
use ppvda.Base.{
  ℕ, List, [], ◌∷◌, ◌++◌, Option, none, some, String, ite, ◌≡◌, refl, string_discrete,
  if◌then◌else◌, is_some, arith, Option-cases, inl, inr, sym, ◌∙◌,
}
use mathlib.Core.Logic.{if_pos, if_neg}
use ppvda.Base.JsMap
use ppvda.Db.{
  update_row, UserRow, DarkreelDelegationRow, Db, empty_db, AuthFields, find_username,
  get_user_by_username, get_user_by_id, insert_user, set_auth, update_rows, update_user_auth,
  delete_user, save_darkreel_delegation, delete_darkreel_delegation, set_setting,
}

-- No two rows have one user name, and each stands under its id.
unfoldable pub UniqueNames : List (String × UserRow) → Type 0
UniqueNames [] = Unit {0}
UniqueNames ((k, r) ∷ rows) = (find_username r.username rows ≡ none) × (r.id ≡ k) × UniqueNames rows

pub record IsConsistent (db : Db) : Type 0 where
  pub ids : JsMap.Unique db.users
  pub names : UniqueNames db.users
  pub owned : (u : String) → JsMap.get u db.users ≡ none → JsMap.get u db.delegations ≡ none

pub find_username-append :
    (name : String) (rows : List (String × UserRow)) (k : String) (r : UserRow)
    → find_username name (rows ++ (k, r) ∷ []) ≡ (
        if is_some (find_username name rows)
        then find_username name rows
        else ite (string_discrete r.username name) (some r) none)
unfolding find_username
find_username-append name [] k r = refl
find_username-append name ((j, x) ∷ rows) k r = ground (arith, find_username-append name rows k r)

get-append :
    (id : String) (rows : List (String × UserRow)) (k : String) (r : UserRow)
    → JsMap.get id (rows ++ (k, r) ∷ []) ≡ (
        if is_some (JsMap.get id rows)
        then JsMap.get id rows
        else ite (string_discrete k id) (some r) none)
unfolding JsMap.get
get-append id [] k r = refl
get-append id ((j, x) ∷ rows) k r = ground (arith, get-append id rows k r)

Unique-append :
    (rows : List (String × UserRow)) (k : String) (r : UserRow)
    → JsMap.Unique rows
    → JsMap.get k rows ≡ none
    → JsMap.Unique (rows ++ (k, r) ∷ [])
unfolding JsMap.get
Unique-append [] k r u h = (refl, tt)
Unique-append ((j, x) ∷ rows) k r u h =
    (ground (arith, get-append j rows k r, u.0), Unique-append rows k r u.1 (ground arith))

UniqueNames-append :
    (rows : List (String × UserRow)) (r : UserRow)
    → UniqueNames rows
    → find_username r.username rows ≡ none
    → UniqueNames (rows ++ (r.id, r) ∷ [])
unfolding UniqueNames find_username
UniqueNames-append [] r u h = (refl, refl, tt)
UniqueNames-append ((j, x) ∷ rows) r u h = (
  ground (arith, find_username-append x.username rows r.id r, u.0),
  u.1,
  UniqueNames-append rows r u.2 (ground arith),
)

find_username-delete :
    (name id : String) (rows : List (String × UserRow))
    → find_username name rows ≡ none
    → find_username name (JsMap.delete id rows) ≡ none
unfolding find_username JsMap.delete
find_username-delete name id [] h = h
find_username-delete name id ((j, x) ∷ rows) h = ground (arith, find_username-delete name id rows)

delete-UniqueNames :
    (id : String) (rows : List (String × UserRow))
    → UniqueNames rows
    → UniqueNames (JsMap.delete id rows)
unfolding UniqueNames JsMap.delete
delete-UniqueNames id [] u = tt
delete-UniqueNames id ((j, x) ∷ rows) u = elim (string_discrete j id) [
  | yes e ↦ rw (if_pos _ e) (delete-UniqueNames id rows u.2)
  | no e ↦
      rw (if_neg _ e)
        (find_username-delete x.username id rows u.0, u.1, delete-UniqueNames id rows u.2)
]

-- `UPDATE` changes no id and no user name.
update_row-id : (k id : String) (f : AuthFields) (r : UserRow) → (update_row k id f r).id ≡ r.id
unfolding update_row set_auth
update_row-id k id f r = ground arith

update_row-username :
    (k id : String) (f : AuthFields) (r : UserRow) → (update_row k id f r).username ≡ r.username
unfolding update_row set_auth
update_row-username k id f r = ground arith

find_username-update_rows :
    (name id : String) (f : AuthFields) (rows : List (String × UserRow))
    → find_username name rows ≡ none
    → find_username name (update_rows id f rows) ≡ none
unfolding find_username update_rows
find_username-update_rows name id f [] h = h
find_username-update_rows name id f ((j, x) ∷ rows) h =
    rw (update_row-username j id f x) (ground (arith, find_username-update_rows name id f rows))

update_rows-UniqueNames :
    (id : String) (f : AuthFields) (rows : List (String × UserRow))
    → UniqueNames rows
    → UniqueNames (update_rows id f rows)
unfolding UniqueNames update_rows
update_rows-UniqueNames id f [] u = tt
update_rows-UniqueNames id f ((j, x) ∷ rows) u =
    rw (update_row-username j id f x, update_row-id j id f x)
      (
        find_username-update_rows x.username id f rows u.0,
        u.1,
        update_rows-UniqueNames id f rows u.2,
      )

-- What a lookup by id finds after the update.
abbrev pub updated : String → String → AuthFields → Option UserRow → Option UserRow
updated k id f none = none
updated k id f (some r) = some (update_row k id f r)

pub get-update_rows :
    (k id : String) (f : AuthFields) (rows : List (String × UserRow))
    → JsMap.get k (update_rows id f rows) ≡ updated k id f (JsMap.get k rows)
unfolding JsMap.get update_rows
get-update_rows k id f [] = refl
get-update_rows k id f ((j, x) ∷ rows) = ground (arith, get-update_rows k id f rows)

update_rows-Unique :
    (id : String) (f : AuthFields) (rows : List (String × UserRow))
    → JsMap.Unique rows
    → JsMap.Unique (update_rows id f rows)
unfolding update_rows
update_rows-Unique id f [] u = tt
update_rows-Unique id f ((j, x) ∷ rows) u =
    (get-update_rows j id f rows ∙ rw u.0 refl, update_rows-Unique id f rows u.1)

-- The changes of a database.
pub data Change : Type 0 where
  inserts : UserRow → Change
  updates : String → AuthFields → Change
  deletes drops_delegation : String → Change
  saves : DarkreelDelegationRow → ℕ → Change
  sets_setting : String → String → Change

-- A statement that throws changes nothing.
pub or_same : Db → Option Db → Db
or_same db none = db
or_same db (some db') = db'

pub apply_change : Db → Change → Db
unfolding or_same insert_user update_user_auth delete_user delete_darkreel_delegation
    save_darkreel_delegation set_setting
apply_change db (inserts row) = or_same db (insert_user db row)
apply_change db (updates id f) = update_user_auth db id f
apply_change db (deletes id) = (delete_user db id).0
apply_change db (drops_delegation id) = (delete_darkreel_delegation db id).0
apply_change db (saves row week) = or_same db (save_darkreel_delegation db row week)
apply_change db (sets_setting key value) = set_setting db key value

unfoldable pub run_changes : Db → List Change → Db
unfolding apply_change
run_changes db [] = db
run_changes db (c ∷ cs) = run_changes (apply_change db c) cs

insert_user-IsConsistent :
    (db : Db) (row : UserRow) → IsConsistent db → IsConsistent (or_same db (insert_user db row))
unfolding insert_user or_same get_user_by_id get_user_by_username
insert_user-IsConsistent db row c = elim (Option-cases (JsMap.get row.id db.users)) [
  | inr (x, e) ↦ rw e c
  | inl e ↦ elim (Option-cases (find_username row.username db.users)) [
    | inr (y, n) ↦ rw (e, n) c
    | inl n ↦
        rw (e, n)
          (record {
            ids = Unique-append db.users row.id row c.ids e;
            names = UniqueNames-append db.users row c.names n;
            owned = λ u h. c.owned u (ground (arith, h, get-append u db.users row.id row));
          })
  ]
]

updated-none :
    (k id : String) (f : AuthFields) (o : Option UserRow) → updated k id f o ≡ none → o ≡ none
updated-none k id f none h = refl
updated-none k id f (some r) h = cc

-- Each statement keeps the tables consistent.
apply_change-IsConsistent :
    (db : Db) (c : Change) → IsConsistent db → IsConsistent (apply_change db c)
unfolding apply_change update_user_auth delete_user delete_darkreel_delegation
    save_darkreel_delegation set_setting or_same get_user_by_id
apply_change-IsConsistent db (inserts row) c = insert_user-IsConsistent db row c
apply_change-IsConsistent db (updates id f) c = record {
  ids = update_rows-Unique id f db.users c.ids;
  names = update_rows-UniqueNames id f db.users c.names;
  owned = λ u h.
      c.owned u
        (updated-none u id f (JsMap.get u db.users) (sym (get-update_rows u id f db.users) ∙ h));
}
apply_change-IsConsistent db (deletes id) c = record {
  ids = JsMap.delete-Unique id db.users c.ids;
  names = delete-UniqueNames id db.users c.names;
  owned = λ u h.
      ground
        (arith, h, c.owned u, JsMap.get-delete id u db.users, JsMap.get-delete id u db.delegations);
}
apply_change-IsConsistent db (drops_delegation id) c = record {
  ids = c.ids;
  names = c.names;
  owned = λ u h. ground (arith, h, c.owned u, JsMap.get-delete id u db.delegations);
}
apply_change-IsConsistent db (saves row week) c =
    elim (Option-cases (JsMap.get row.user_id db.users)) [
      | inl e ↦ rw e c
      | inr (x, e) ↦ rw e (record {
        ids = c.ids;
        names = c.names;
        owned = λ u h. ground (
          arith,
          h,
          e,
          c.owned u,
          JsMap.get-set row.user_id u (record row { connected_at = week }) db.delegations,
        );
      })
    ]
apply_change-IsConsistent db (sets_setting key value) c = record {
  ids = c.ids;
  names = c.names;
  owned = c.owned;
}

run_changes-IsConsistent :
    (db : Db) (cs : List Change) → IsConsistent db → IsConsistent (run_changes db cs)
unfolding run_changes
run_changes-IsConsistent db [] c = c
run_changes-IsConsistent db (x ∷ cs) c =
    run_changes-IsConsistent (apply_change db x) cs (apply_change-IsConsistent db x c)

-- After any statements on an empty database each row stands under its id, no id and no user name is
-- there twice, and each delegation belongs to a user who is there.
pub run_changes-empty-IsConsistent : (cs : List Change) → IsConsistent (run_changes empty_db cs)
unfolding empty_db UniqueNames JsMap.get
run_changes-empty-IsConsistent cs =
    run_changes-IsConsistent empty_db cs (record { ids = tt; names = tt; owned = λ u h. refl })
