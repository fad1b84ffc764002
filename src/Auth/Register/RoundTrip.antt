-- ===== src/Auth/Register/RoundTrip.antt =====
-- Registering and then logging in.
use ppvda.Base.{ℕ, ◌≡◌, refl, false, Option, none, some, arith, String}
use ppvda.Base.Text.{Text}
use ppvda.Crypto.{Primitives, IsLawful}
use ppvda.Db.{Db, UserRow, get_user_by_username, create_user_row, new_row}
use ppvda.Db.Lookups.{get_user_by_username-insert}
use ppvda.Auth.Sessions
use ppvda.Auth.Sessions.Hygiene.{IsValid}
use ppvda.Auth.Limiter.{is_limited}
use ppvda.Auth.Server.{Server, Fresh, registered, logged_in, payload_of, seal_auth}
use ppvda.Auth.Server.Unlock.{new_row-IsUnlocked}
use ppvda.Auth.Login.{LoginWaits, login}
use ppvda.Auth.Login.Opens.{KeepsSessions, login_opens, session_at}
use ppvda.Auth.Register.{register, insert_registered, inserted}

module _ (p : Primitives) where
  -- The row that a registration inserts.
  abbrev pub registered_row : String → Text → Fresh → UserRow
  registered_row username password f =
      new_row f.user_id username (seal_auth p f.user_id password f.master_key f) false f.week

  inserted-found :
      (srv : Server) (username : String) (password : Text) (f : Fresh) (o : Option Db) (id : String)
      (code : Text)
      → create_user_row srv.db f.user_id username
          (seal_auth p f.user_id password f.master_key f)
          false
          f.week
        ≡ o
      → (inserted p srv f o).1 ≡ registered id code
      → get_user_by_username (inserted p srv f o).0.db username
        ≡ some (registered_row username password f)
  unfolding inserted create_user_row new_row
  inserted-found srv username password f none id code e h = cc
  inserted-found srv username password f (some db) id code e h =
      get_user_by_username-insert srv.db db (registered_row username password f) e

  -- A registration that succeeds leaves the row of the user under the name.
  pub get_user_by_username-register :
      (meanwhile : Server → Server) (srv : Server) (username : String) (password : Text) (f : Fresh)
      (id : String) (code : Text)
      → (register p meanwhile srv username password f).1 ≡ registered id code
      → get_user_by_username (register p meanwhile srv username password f).0.db username
        ≡ some (registered_row username password f)
  unfolding register insert_registered
  get_user_by_username-register meanwhile srv username password f id code h = ground (
    arith,
    inserted-found (meanwhile srv) username password f
        (create_user_row (meanwhile srv).db f.user_id username
          (seal_auth p f.user_id password f.master_key f) false f.week)
        id code refl,
  )

  module _ (law : IsLawful p) (digest : String → String) where
    -- Whoever registered logs in with the same name and password: where the account is not limited and
    -- other requests keep the sessions valid, the token is for the user who was registered, and for 24
    -- hours the session gives the master key that the registration drew.
    pub login-register :
        (meanwhile : Server → Server) (w : LoginWaits) (srv : Server) (username : String)
        (password : Text) (f g : Fresh) (asked now later : ℕ) (id : String) (code : Text)
        → (register p meanwhile srv username password f).1 ≡ registered id code
        → let after = (register p meanwhile srv username password f).0 in
          KeepsSessions w
          → IsValid after.sessions
          → is_limited digest after.login_limiter username asked ≡ false
          → let (srv', reply) = login p digest w after username password g asked now in
            (reply ≡ logged_in (payload_of (registered_row username password f) g))
            × ((Sessions.get srv'.sessions g.session_id later).1
                ≡ session_at now later f.user_id f.master_key)
    unfolding new_row
    login-register meanwhile w srv username password f g asked now later id code h k v n =
        login_opens p digest w (register p meanwhile srv username password f).0 username password g
          asked now later (registered_row username password f) f.master_key k v n
          (get_user_by_username-register meanwhile srv username password f id code h)
          (new_row-IsUnlocked p law f.user_id username password f.master_key f false)
