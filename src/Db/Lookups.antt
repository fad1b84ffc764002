-- ===== src/Db/Lookups.antt =====
-- What a lookup finds after a change of the tables.
use ppvda.Base.{
  ◌≢◌, List, [], ◌∷◌, none, some, String, ◌≡◌, string_discrete, arith, Option-cases, inl, inr, ap,
  sym, ◌∙◌,
}
use ppvda.Base.JsMap
use ppvda.Db.{
  update_row, UserRow, Db, AuthFields, get_user_by_username, get_user_by_id, insert_user, set_auth,
  update_user_auth, delete_user, get_darkreel_delegation,
}
use ppvda.Db.Laws.{IsConsistent, UniqueNames, find_username-append, get-update_rows}

-- In consistent tables, the row under an id has that id.
row-id :
    (id : String) (rows : List (String × UserRow)) (r : UserRow)
    → UniqueNames rows
    → JsMap.get id rows ≡ some r
    → r.id ≡ id
unfolding UniqueNames JsMap.get
row-id id [] r u h = cc
row-id id ((j, x) ∷ rows) r u h = elim (string_discrete j id) [
  | yes e ↦ let same : x ≡ r = ground arith in sym (ap (λ y. y.id) same) ∙ u.1 ∙ e
  | no e ↦ row-id id rows r u.2 (ground arith)
]

pub get_user_by_id-id :
    (db : Db) (id : String) (r : UserRow)
    → IsConsistent db
    → get_user_by_id db id ≡ some r
    → r.id ≡ id
unfolding get_user_by_id
get_user_by_id-id db id r c h = row-id id db.users r c.names h

-- The row under the id of an update has the new fields.
pub get_user_by_id-update_user_auth :
    (db : Db) (id : String) (f : AuthFields) (r : UserRow)
    → IsConsistent db
    → get_user_by_id (update_user_auth db id f) id ≡ some r
    → (old : UserRow) × (r ≡ set_auth old f) × (old.id ≡ id)
unfolding get_user_by_id update_user_auth update_row
get_user_by_id-update_user_auth db id f r c h = elim (Option-cases (JsMap.get id db.users)) [
  | inl e ↦ ground (arith, h, e, get-update_rows id id f db.users)
  | inr (old, e) ↦ (
    old,
    ground (arith, h, e, get-update_rows id id f db.users),
    row-id id db.users old c.names e,
  )
]

-- The row of a user who was just inserted.
pub get_user_by_username-insert :
    (db db' : Db) (row : UserRow)
    → insert_user db row ≡ some db'
    → get_user_by_username db' row.username ≡ some row
unfolding insert_user get_user_by_username get_user_by_id
get_user_by_username-insert db db' row h =
    ground (arith, find_username-append row.username db.users row.id row)

pub get_user_by_id-delete_user :
    (db : Db) (id : String)
    → (get_user_by_id (delete_user db id).0 id ≡ none)
      × (get_darkreel_delegation (delete_user db id).0 id ≡ none)
unfolding get_user_by_id delete_user get_darkreel_delegation
get_user_by_id-delete_user db id = (
  ground (arith, JsMap.get-delete id id db.users),
  ground (arith, JsMap.get-delete id id db.delegations),
)

pub get_user_by_id-delete_user_ne :
    (db : Db) (id other : String)
    → id ≢ other
    → get_user_by_id (delete_user db id).0 other ≡ get_user_by_id db other
unfolding get_user_by_id delete_user
get_user_by_id-delete_user_ne db id other n = ground (arith, n, JsMap.get-delete id other db.users)
