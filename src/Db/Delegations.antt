-- ===== src/Db/Delegations.antt =====
-- What is found in the table of delegations after a change.
use ppvda.Base.{ℕ, ◌≡◌, refl, some, String, arith}
use ppvda.Base.JsMap
use ppvda.Db.{
  Db, UserRow, DarkreelDelegationRow, AuthFields, get_user_by_id, get_darkreel_delegation,
  save_darkreel_delegation, update_user_auth,
}

-- What is found after a row is saved.
pub get_darkreel_delegation-save :
    (db : Db) (row : DarkreelDelegationRow) (week : ℕ) (user : UserRow)
    → get_user_by_id db row.user_id ≡ some user
    → (db' : Db) × (save_darkreel_delegation db row week ≡ some db')
      × (get_darkreel_delegation db' row.user_id ≡ some (record row { connected_at = week }))
unfolding save_darkreel_delegation get_darkreel_delegation get_user_by_id
get_darkreel_delegation-save db row week user h = (
  record db {
    delegations = JsMap.set row.user_id (record row { connected_at = week }) db.delegations;
  },
  rw h refl,
  ground (
    arith,
    JsMap.get-set row.user_id row.user_id (record row { connected_at = week }) db.delegations,
  ),
)

-- A change of the password leaves the delegations.
pub get_darkreel_delegation-update_user_auth :
    (db : Db) (id : String) (f : AuthFields) (user_id : String)
    → get_darkreel_delegation (update_user_auth db id f) user_id
      ≡ get_darkreel_delegation db user_id
unfolding get_darkreel_delegation update_user_auth
get_darkreel_delegation-update_user_auth db id f user_id = refl
