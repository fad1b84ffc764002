-- ===== src/Db.antt =====
-- The tables of src/db/index.ts. A table is its rows by their primary key in the order of insertion;
-- a statement that breaks a constraint throws, and gives nothing here. `strftime('%Y-%W', 'now')` is
-- the argument `week`, and `randomUUID()` is the caller's. Deleting a user cascades.
pub mod Delegations
pub mod Laws
pub mod Lookups
use ppvda.Base.{
  ℕ, Bool, true, false, ◌&&◌, ◌||◌, not, List, [], ◌∷◌, ◌++◌, Option, none, some, String, ite,
  string_discrete, if◌then◌else◌, is_some, length, map, leb,
}
use ppvda.Base.JsMap
use ppvda.Base.Sort.{sort_by}
use ppvda.Base.Text.{Text}

pub record UserRow : Type 0 where
  pub id : String
  pub username : String
  pub password_hash : Text
  pub auth_salt : Option Text
  pub password_salt : Text
  pub encrypted_master_key : Text
  pub master_key_nonce : Text
  pub kdf_iterations : ℕ
  pub recovery_mk : Option Text
  pub is_admin : Bool
  pub created_at : ℕ

pub record DarkreelDelegationRow : Type 0 where
  pub user_id : String
  pub server_url : String
  pub darkreel_user_id : String
  pub delegation_id : String
  pub public_key : Text
  pub encrypted_refresh_token : Text
  pub refresh_token_nonce : Text
  pub connected_at : ℕ

pub record Db : Type 0 where
  pub users : List (String × UserRow)
  pub delegations : List (String × DarkreelDelegationRow)
  pub settings : List (String × String)

unfoldable pub empty_db : Db
empty_db = record { users = []; delegations = []; settings = [] }

-- The six fields that a change of the password writes.
pub record AuthFields : Type 0 where
  pub password_hash : Text
  pub auth_salt : Text
  pub password_salt : Text
  pub encrypted_master_key : Text
  pub master_key_nonce : Text
  pub recovery_mk : Text

pub get_user_count : Db → ℕ
get_user_count db = length db.users

pub find_username : String → List (String × UserRow) → Option UserRow
find_username name [] = none
find_username name ((k, r) ∷ rows) =
    ite (string_discrete r.username name) (some r) (find_username name rows)

unfoldable pub get_user_by_username : Db → String → Option UserRow
unfolding find_username
get_user_by_username db name = find_username name db.users

unfoldable pub get_user_by_id : Db → String → Option UserRow
get_user_by_id db id = JsMap.get id db.users

earlier : UserRow → UserRow → Bool
earlier a b = leb a.created_at b.created_at

pub list_users : Db → List UserRow
unfolding earlier
list_users db = sort_by earlier (map (λ e. e.1) db.users)

-- The row that `createUser` inserts: every caller gives the authentication fields of a new user.
unfoldable pub new_row : String → String → AuthFields → Bool → ℕ → UserRow
new_row id username f is_admin week = record {
  id = id;
  username = username;
  password_hash = f.password_hash;
  auth_salt = some f.auth_salt;
  password_salt = f.password_salt;
  encrypted_master_key = f.encrypted_master_key;
  master_key_nonce = f.master_key_nonce;
  kdf_iterations = 600_000;
  recovery_mk = some f.recovery_mk;
  is_admin = is_admin;
  created_at = week;
}

-- `INSERT INTO users`, with the constraints of the primary key and of the user name.
unfoldable pub insert_user : Db → UserRow → Option Db
unfolding get_user_by_id get_user_by_username
insert_user db row =
    if is_some (get_user_by_id db row.id) || is_some (get_user_by_username db row.username)
    then none
    else some (record db { users = db.users ++ (row.id, row) ∷ [] })

unfoldable pub create_user_row : Db → String → String → AuthFields → Bool → ℕ → Option Db
unfolding insert_user new_row
create_user_row db id username f is_admin week =
    insert_user db (new_row id username f is_admin week)

unfoldable pub set_auth : UserRow → AuthFields → UserRow
set_auth r f = record r {
  password_hash = f.password_hash;
  auth_salt = some f.auth_salt;
  password_salt = f.password_salt;
  encrypted_master_key = f.encrypted_master_key;
  master_key_nonce = f.master_key_nonce;
  recovery_mk = some f.recovery_mk;
  kdf_iterations = 600_000;
}

-- A row under the `WHERE id = ?` of the update.
pub update_row : String → String → AuthFields → UserRow → UserRow
unfolding set_auth
update_row k id f r = ite (string_discrete k id) (set_auth r f) r

pub update_rows : String → AuthFields → List (String × UserRow) → List (String × UserRow)
unfolding update_row
update_rows id f [] = []
update_rows id f ((k, r) ∷ rows) = (k, update_row k id f r) ∷ update_rows id f rows

pub update_user_auth : Db → String → AuthFields → Db
unfolding update_rows
update_user_auth db id f = record db { users = update_rows id f db.users }

pub delete_user : Db → String → Db × Bool
delete_user db id = (
  record db { users = JsMap.delete id db.users; delegations = JsMap.delete id db.delegations },
  is_some (JsMap.get id db.users),
)

pub get_darkreel_delegation : Db → String → Option DarkreelDelegationRow
get_darkreel_delegation db user_id = JsMap.get user_id db.delegations

-- The foreign key wants the user.
pub save_darkreel_delegation : Db → DarkreelDelegationRow → ℕ → Option Db
unfolding get_user_by_id
save_darkreel_delegation db row week =
    if is_some (get_user_by_id db row.user_id)
    then some (record db {
      delegations = JsMap.set row.user_id (record row { connected_at = week }) db.delegations;
    })
    else none

pub delete_darkreel_delegation : Db → String → Db × Bool
delete_darkreel_delegation db user_id = (
  record db { delegations = JsMap.delete user_id db.delegations },
  is_some (JsMap.get user_id db.delegations),
)

pub has_darkreel_delegation : Db → String → Bool
has_darkreel_delegation db user_id = is_some (JsMap.get user_id db.delegations)

unfoldable pub get_setting : Db → String → Option String
get_setting db key = JsMap.get key db.settings

unfoldable pub set_setting : Db → String → String → Db
set_setting db key value = record db { settings = JsMap.set key value db.settings }
