-- ===== src/Auth/Login.antt =====
-- `POST /auth/login` and `POST /auth/logout` of src/auth/index.ts. The user is read once; what other
-- requests do while the password is verified and the key derived are `verifying` and `deriving_key`.
pub mod Opens
use ppvda.Base.{
  ℕ, Bool, true, false, not, List, [], Option, none, some, String, if◌then◌else◌, is_some,
}
use ppvda.Base.Text.{Text}
use ppvda.Crypto.{Primitives}
use ppvda.Db.{Db, UserRow, get_user_by_username, update_user_auth}
use ppvda.Auth.Sessions
use ppvda.Auth.Limiter.{is_limited, record_failure, reset}
use ppvda.Auth.Server.{
  Server, Fresh, JwtPayload, Reply, error, thrown, done, logged_in, check_password, open_master_key,
  seal_auth, create_session, payload_of,
}

pub record LoginWaits : Type 0 where
  pub verifying : Server → Server
  pub deriving_key : Server → Server

abbrev pub bad_login : Reply
bad_login = error 401 "Username and/or password is incorrect."

module _ (p : Primitives) (digest : String → String) where
  pub fail_login : Server → String → ℕ → Server × Reply
  fail_login srv username now = (
    record srv { login_limiter = record_failure digest srv.login_limiter username now },
    bad_login,
  )

  -- A legacy user gets new fields with the key that was opened.
  pub upgrade : Server → UserRow → Text → Text → Fresh → Server
  upgrade srv user password master_key f = if is_some user.auth_salt then srv else record srv {
    db = update_user_auth srv.db user.id (seal_auth p user.id password master_key f);
  }

  -- The session of an opened key.
  start_session : Server → UserRow → Text → Text → Fresh → ℕ → Server × Reply
  unfolding upgrade create_session
  start_session srv user password master_key f now =
      let (srv', payload) =
        create_session (upgrade srv user password master_key f) user master_key f now in
      (srv', logged_in payload)

  opened : Server → UserRow → Text → Fresh → ℕ → Option Text → Server × Reply
  unfolding start_session
  opened srv user password f now none = (srv, error 500 "Failed to decrypt session key")
  opened srv user password f now (some master_key) =
      start_session srv user password master_key f now

  -- After the verification: `none` is a comparison that throws.
  verified :
      LoginWaits → Server → String → UserRow → Text → Fresh → ℕ → Option Bool → Server × Reply
  unfolding fail_login opened
  verified w srv username user password f now none = (srv, thrown)
  verified w srv username user password f now (some false) = fail_login srv username now
  verified w srv username user password f now (some true) =
      opened
        (w.deriving_key (record srv { login_limiter = reset digest srv.login_limiter username }))
        user password f now (open_master_key p user password)

  with_user : LoginWaits → Server → String → Text → Fresh → ℕ → Option UserRow → Server × Reply
  unfolding verified fail_login
  with_user w srv username password f now none = fail_login (w.verifying srv) username now
  with_user w srv username password f now (some user) =
      verified w (w.verifying srv) username user password f now (check_password p user password)

  -- The times of the question to the limiter and of what follows the waits.
  pub login : LoginWaits → Server → String → Text → Fresh → ℕ → ℕ → Server × Reply
  unfolding with_user
  login w srv username password f asked now =
      if is_limited digest srv.login_limiter username asked
      then (srv, bad_login)
      else with_user w srv username password f now (get_user_by_username srv.db username)

-- `POST /auth/logout`, of the session of the token.
pub logout : Server → String → Server × Reply
logout srv sid = (record srv { sessions = Sessions.delete srv.sessions sid }, done)
