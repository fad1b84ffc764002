-- ===== src/Auth/Gate.antt =====
-- `extractToken`, `authenticate` and `requireAdmin` of src/auth/index.ts. `jwtVerify` is the parameter
-- `verify_token`, with no value where it throws. What the lookup of the session leaves of the sessions
-- is part of the result.
pub mod Locked
pub mod Sound
use ppvda.Base.{
  ℕ, Bool, true, false, not, List, [], ◌∷◌, Option, none, some, String, if◌then◌else◌, drop, ite,
  string_discrete,
}
use ppvda.Base.Text.{Text, codes, starts_with}
use ppvda.Db.{UserRow, Db, get_user_by_id}
use ppvda.Auth.Sessions.{SessionStore, has}
use ppvda.Auth.Server.{Server, JwtPayload}

-- The cookie, unless it is empty, and else what follows `Bearer `.
unfoldable pub extract_token : Option Text → Option Text → Option Text
extract_token (some (c ∷ t)) authorization = some (c ∷ t)
extract_token cookie none = none
extract_token cookie (some authorization) =
    if starts_with (codes "Bearer ") authorization then some (drop 7 authorization) else none

-- A refusal says whether the cookie is cleared.
pub data AuthResult : Type 0 where
  denied : Bool → String → AuthResult
  passed : JwtPayload → AuthResult

-- The user whom the later handlers see: the flag is the one of the row.
with_row : JwtPayload → Option UserRow → AuthResult
with_row payload none = denied true "Account no longer exists"
with_row payload (some row) = passed (record payload { is_admin = row.is_admin })

-- `userId ? db.getUserById(userId) : undefined`
pub row_of : Db → Option String → Option UserRow
row_of db none = none
row_of db (some id) = ite (string_discrete id "") none (get_user_by_id db id)

with_session : Server → JwtPayload → SessionStore × Bool → Server × AuthResult
unfolding with_row row_of
with_session srv payload (store, false) =
    (record srv { sessions = store }, denied true "Session expired")
with_session srv payload (store, true) =
    (record srv { sessions = store }, with_row payload (row_of srv.db payload.sub))

-- `!payload.sid || !sessions.has(payload.sid)`
find_session : Server → Option String → ℕ → SessionStore × Bool
find_session srv none now = (srv.sessions, false)
find_session srv (some sid) now =
    ite (string_discrete sid "") (srv.sessions, false) (has srv.sessions sid now)

with_payload : Server → ℕ → Option JwtPayload → Server × AuthResult
unfolding with_session find_session
with_payload srv now none = (srv, denied true "Unauthorized")
with_payload srv now (some payload) = with_session srv payload (find_session srv payload.sid now)

module _ (verify_token : Text → Option JwtPayload) where
  with_token : Server → ℕ → Option Text → Server × AuthResult
  unfolding with_payload
  with_token srv now none = (srv, denied false "Unauthorized")
  with_token srv now (some []) = (srv, denied false "Unauthorized")
  with_token srv now (some (c ∷ t)) = with_payload srv now (verify_token (c ∷ t))

  unfoldable pub authenticate : Server → Option Text → Option Text → ℕ → Server × AuthResult
  unfolding with_token extract_token
  authenticate srv cookie authorization now =
      with_token srv now (extract_token cookie authorization)

admin_row : Option UserRow → Bool
admin_row none = false
admin_row (some row) = row.is_admin

-- `requireAdmin` passes; the flag is read again from the row.
pub require_admin : Db → Option JwtPayload → Bool
unfolding admin_row row_of
require_admin db none = false
require_admin db (some user) = admin_row (row_of db user.sub)
