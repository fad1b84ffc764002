-- ===== src/Auth/Register.antt =====
-- `POST /auth/register`, `bootstrapAdmin` and `createUser` of src/auth/index.ts. What other requests do
-- while the handler awaits is `meanwhile`. The derivations that only equalise the time are left out.
pub mod RoundTrip
use ppvda.Base.{
  ℕ, Bool, true, false, ◌&&◌, not, List, [], Option, none, some, String, ite, string_discrete,
  if◌then◌else◌, is_some,
}
use ppvda.Base.Text.{Text, codes}
use ppvda.Crypto.{Primitives}
use ppvda.Db.{Db, UserRow, get_setting, get_user_by_username, create_user_row}
use ppvda.Auth.Password.{is_valid_username, is_strong_password}
use ppvda.Auth.Server.{Server, Fresh, Reply, error, thrown, registered, seal_auth}

pub is_open : Option String → Bool
is_open none = false
is_open (some setting) = ite (string_discrete setting "true") true false

-- `GET /auth/registration`
pub registration_enabled : Server → Bool
unfolding is_open
registration_enabled srv = is_open (get_setting srv.db "allow_registration")

-- The end of the handler, with what the insertion gives.
inserted : Primitives → Server → Fresh → Option Db → Server × Reply
inserted p srv f none = (srv, thrown)
inserted p srv f (some db) =
    (record srv { db = db }, registered f.user_id (p.to_base64url f.recovery_code))

-- The insertion, after the awaits.
pub insert_registered : Primitives → Server → String → Text → Fresh → Server × Reply
unfolding inserted
insert_registered p srv username password f = inserted p srv f (
    create_user_row srv.db f.user_id username (seal_auth p f.user_id password f.master_key f) false
      f.week)

unfoldable pub register :
    Primitives → (Server → Server) → Server → String → Text → Fresh → Server × Reply
unfolding registration_enabled insert_registered
register p meanwhile srv username password f =
    if not (registration_enabled srv)
    then (srv, error 403 "Registration is disabled")
    else if not (is_valid_username (codes username))
    then (srv, error 400 "Username must be 3-64 alphanumeric characters")
    else if not (is_strong_password password)
    then (
      srv,
      error 400
          "16-128 characters with at least one letter, one number, and one symbol (no spaces)",
    )
    else if is_some (get_user_by_username srv.db username)
    then (meanwhile srv, error 400 "Registration failed.")
    else insert_registered p (meanwhile srv) username password f

-- `createUser`: the database, the id and the recovery code.
created : Primitives → Fresh → Option Db → Option (Db × String × Text)
created p f none = none
created p f (some db) = some (db, f.user_id, p.to_base64url f.recovery_code)

pub create_user : Primitives → Db → String → Text → Bool → Fresh → Option (Db × String × Text)
unfolding created
create_user p db username password is_admin f = created p f (
    create_user_row db f.user_id username (seal_auth p f.user_id password f.master_key f) is_admin
      f.week)

-- `bootstrapAdmin` returns no id.
without_id : Option (Db × String × Text) → Option (Db × Text)
without_id none = none
without_id (some (db, id, code)) = some (db, code)

pub bootstrap_admin : Primitives → Db → String → Text → Fresh → Option (Db × Text)
unfolding create_user without_id
bootstrap_admin p db username password f = without_id (create_user p db username password true f)
