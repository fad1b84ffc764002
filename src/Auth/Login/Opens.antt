-- ===== src/Auth/Login/Opens.antt =====
-- What a login opens: the session of a user whose password is right, and nothing else.
use ppvda.Base.{
  Bool, Bool-cases, Option-cases, true, ℕ, ◌+◌, ◌≡◌, ◌⊎◌, refl, inl, inr, false, Option, none, some,
  arith, String, ltb, if◌then◌else◌,
}
use ppvda.Base.Text.{Text}
use ppvda.Crypto.{Primitives}
use ppvda.Db.{UserRow, get_user_by_username}
use ppvda.Auth.Sessions
use ppvda.Auth.Sessions.Hygiene.{IsValid}
use ppvda.Auth.Sessions.Lookup.{get-set_session_at}
use ppvda.Auth.Limiter.{is_limited, record_failure, reset}
use ppvda.Auth.Server.{
  JwtPayload, open_master_key, Server, Fresh, error, logged_in, check_password, create_session,
  payload_of,
}
use ppvda.Auth.Server.Unlock.{IsUnlocked}
use ppvda.Auth.Login.{
  bad_login, LoginWaits, fail_login, upgrade, start_session, opened, verified, with_user, login,
}

-- What other requests do while the handler waits keeps the sessions valid.
pub record KeepsSessions (w : LoginWaits) : Type 0 where
  pub verifying : (s : Server) → IsValid s.sessions → IsValid (w.verifying s).sessions
  pub deriving_key : (s : Server) → IsValid s.sessions → IsValid (w.deriving_key s).sessions

-- What a session that was opened at one time gives at another.
abbrev pub session_at : ℕ → ℕ → String → Text → Option (String × Text)
session_at now later id key = if ltb (now + 86_400_000) later then none else some (id, key)

module _ (p : Primitives) (digest : String → String) where
  upgrade-sessions :
      (srv : Server) (user : UserRow) (password key : Text) (f : Fresh)
      → (upgrade p digest srv user password key f).sessions ≡ srv.sessions
  unfolding upgrade
  upgrade-sessions srv user password key f = ground arith

  start_session-opens :
      (srv : Server) (user : UserRow) (password key : Text) (f : Fresh) (now later : ℕ)
      → IsValid srv.sessions
      → let (srv', reply) = start_session p digest srv user password key f now in
        (reply ≡ logged_in (payload_of user f))
        × ((Sessions.get srv'.sessions f.session_id later).1 ≡ session_at now later user.id key)
  unfolding start_session create_session
  start_session-opens srv user password key f now later v =
      rw (upgrade-sessions srv user password key f)
        (refl, get-set_session_at srv.sessions f.session_id user.id key now later v)

  -- A user who is found, is not limited, and whose password verifies and opens a master key is logged
  -- in, if what other requests do meanwhile keeps the sessions valid: the token names the user, the
  -- session and the flag of the row, and for 24 hours the session gives that user and that master key.
  pub login_opens :
      (w : LoginWaits) (srv : Server) (username : String) (password : Text) (f : Fresh)
      (asked now later : ℕ) (user : UserRow) (key : Text)
      → KeepsSessions w
      → IsValid srv.sessions
      → is_limited digest srv.login_limiter username asked ≡ false
      → get_user_by_username srv.db username ≡ some user
      → IsUnlocked p user password key
      → let (srv', reply) = login p digest w srv username password f asked now in
        (reply ≡ logged_in (payload_of user f))
        × ((Sessions.get srv'.sessions f.session_id later).1 ≡ session_at now later user.id key)
  unfolding login
  login_opens w srv username password f asked now later user key k v n found u =
      rw (n, found, with_user, u.verified, verified, u.opens, opened)
        (start_session-opens
          (w.deriving_key (record (w.verifying srv) {
            login_limiter = reset digest (w.verifying srv).login_limiter username;
          }))
          user password key f now later
          (k.deriving_key
            (record (w.verifying srv) {
              login_limiter = reset digest (w.verifying srv).login_limiter username;
            })
            (k.verifying srv v)))

  -- An account that is not limited answers an unknown user name and a wrong password alike: the reply is
  -- the same, one failure is recorded for the name, and nothing else of the state changes but what
  -- other requests do meanwhile.
  pub login_uniform :
      (w : LoginWaits) (srv : Server) (username : String) (password : Text) (f : Fresh)
      (asked now : ℕ)
      → is_limited digest srv.login_limiter username asked ≡ false
      → (get_user_by_username srv.db username ≡ none)
        ⊎ ((user : UserRow) × (get_user_by_username srv.db username ≡ some user)
            × (check_password p user password ≡ some false))
      → login p digest w srv username password f asked now ≡ (
        record (w.verifying srv) {
          login_limiter = record_failure digest (w.verifying srv).login_limiter username now;
        },
        error 401 "Username and/or password is incorrect.",
      )
  unfolding login fail_login
  login_uniform w srv username password f asked now n (inl unknown) =
      rw (n, unknown, with_user) refl
  login_uniform w srv username password f asked now n (inr (user, found, wrong)) =
      rw (n, found, with_user, wrong, verified) refl

  -- What a successful login shows about the state that it met.
  pub record IsGranted (srv : Server) (username : String) (password : Text) (f : Fresh) (asked : ℕ)
      (payload : JwtPayload) : Type 0 where
    pub user : UserRow
    pub master_key : Text
    pub limit : is_limited digest srv.login_limiter username asked ≡ false
    pub found : get_user_by_username srv.db username ≡ some user
    pub unlocked : IsUnlocked p user password master_key
    pub token : payload ≡ payload_of user f

  IsGranted-opened :
      (srv : Server) (username : String) (password : Text) (f : Fresh) (asked now : ℕ)
      (payload : JwtPayload) (user : UserRow)
      → is_limited digest srv.login_limiter username asked ≡ false
      → get_user_by_username srv.db username ≡ some user
      → check_password p user password ≡ some true
      → (s : Server) → (o : Option Text) → open_master_key p user password ≡ o
      → (opened p digest s user password f now o).1 ≡ logged_in payload
      → IsGranted srv username password f asked payload
  unfolding opened start_session create_session
  IsGranted-opened srv username password f asked now payload user n found c s none e h = cc
  IsGranted-opened srv username password f asked now payload user n found c s (some key) e h =
      record {
        user = user;
        master_key = key;
        limit = n;
        found = found;
        unlocked = record { verified = c; opens = e };
        token = cc;
      }

  IsGranted-verified :
      (w : LoginWaits) (srv : Server) (username : String) (password : Text) (f : Fresh)
      (asked now : ℕ) (payload : JwtPayload) (user : UserRow)
      → is_limited digest srv.login_limiter username asked ≡ false
      → get_user_by_username srv.db username ≡ some user
      → (s : Server) → (c : Option Bool) → check_password p user password ≡ c
      → (verified p digest w s username user password f now c).1 ≡ logged_in payload
      → IsGranted srv username password f asked payload
  unfolding verified fail_login bad_login
  IsGranted-verified w srv username password f asked now payload user n found s none c h = cc
  IsGranted-verified w srv username password f asked now payload user n found s (some false) c h =
      cc
  IsGranted-verified w srv username password f asked now payload user n found s (some true) c h =
      IsGranted-opened srv username password f asked now payload user n found c
        (w.deriving_key (record s { login_limiter = reset digest s.login_limiter username }))
        (open_master_key p user password) refl h

  -- A login that succeeds found an account that is not limited and has the user name, whose password
  -- verified and opened a master key; the token names that user, the new session and the flag of the row.
  pub login_sound :
      (w : LoginWaits) (srv : Server) (username : String) (password : Text) (f : Fresh)
      (asked now : ℕ) (payload : JwtPayload)
      → (login p digest w srv username password f asked now).1 ≡ logged_in payload
      → IsGranted srv username password f asked payload
  unfolding login with_user fail_login bad_login
  login_sound w srv username password f asked now payload h =
      elim (Bool-cases (is_limited digest srv.login_limiter username asked)) [
        | inl limited ↦ ground (arith, h, limited)
        | inr n ↦ elim (Option-cases (get_user_by_username srv.db username)) [
          | inl e ↦ ground (arith, h, n, e)
          | inr (user, e) ↦
              IsGranted-verified w srv username password f asked now payload user n e
                (w.verifying srv) (check_password p user password) refl (rw (n, e) at h)
        ]
      ]
