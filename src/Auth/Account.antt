-- ===== src/Auth/Account.antt =====
-- `POST /auth/change-password` and `DELETE /auth/account` of src/auth/index.ts. The request has passed
-- `authenticate`, which gives the id of the user. `verifying` and `deriving_key` are what other requests
-- do while the password is verified and the keys derived.
pub mod Keeps
use ppvda.Base.{ℕ, Bool, true, false, not, List, [], Option, none, some, String, if◌then◌else◌}
use ppvda.Base.Text.{Text}
use ppvda.Crypto.{Primitives}
use ppvda.Db.{
  Db, UserRow, get_user_by_id, update_user_auth, delete_user, delete_darkreel_delegation,
}
use ppvda.Auth.Sessions.{delete_all_for_user}
use ppvda.Auth.Password.{is_strong_password}
use ppvda.Auth.Server.{
  Server, Fresh, JwtPayload, Reply, error, thrown, done, changed, check_password, open_master_key,
  seal_auth, create_session,
}
use ppvda.Auth.Login.{LoginWaits}

module _ (p : Primitives) where
  -- The new fields, the end of all sessions, and a fresh one.
  pub store_changed : Server → UserRow → Text → Text → Fresh → ℕ → Server × Reply
  unfolding create_session
  store_changed srv user new_password master_key f now =
      let (srv', payload) =
        create_session
          (record srv {
            db = update_user_auth srv.db user.id (seal_auth p user.id new_password master_key f);
            sessions = delete_all_for_user srv.sessions user.id;
          })
          user master_key f now in
      (srv', changed payload (p.to_base64url f.recovery_code))

  reopened : Server → UserRow → Text → Fresh → ℕ → Option Text → Server × Reply
  unfolding store_changed
  reopened srv user new_password f now none = (srv, error 500 "Failed to decrypt session key")
  reopened srv user new_password f now (some master_key) =
      store_changed srv user new_password master_key f now

  old_verified :
      LoginWaits → Server → UserRow → Text → Text → Fresh → ℕ → Option Bool → Server × Reply
  unfolding reopened
  old_verified w srv user old_password new_password f now none = (srv, thrown)
  old_verified w srv user old_password new_password f now (some false) =
      (srv, error 400 "Current password is incorrect")
  old_verified w srv user old_password new_password f now (some true) =
      reopened (w.deriving_key srv) user new_password f now (open_master_key p user old_password)

  change_of_user : LoginWaits → Server → Text → Text → Fresh → ℕ → Option UserRow → Server × Reply
  unfolding old_verified
  change_of_user w srv old_password new_password f now none = (srv, error 404 "User not found")
  change_of_user w srv old_password new_password f now (some user) =
      old_verified w (w.verifying srv) user old_password new_password f now
        (check_password p user old_password)

  pub change_password : LoginWaits → Server → String → Text → Text → Fresh → ℕ → Server × Reply
  unfolding change_of_user
  change_password w srv user_id old_password new_password f now =
      if not (is_strong_password new_password)
      then (
        srv,
        error 400
            "16-128 characters with at least one letter, one number, and one symbol (no spaces)",
      )
      else change_of_user w srv old_password new_password f now (get_user_by_id srv.db user_id)

  -- The sessions, the delegation and the row go.
  pub remove_account : Server → String → Server
  remove_account srv user_id = record srv {
    sessions = delete_all_for_user srv.sessions user_id;
    db = (delete_user (delete_darkreel_delegation srv.db user_id).0 user_id).0;
  }

  delete_verified : Server → String → Option Bool → Server × Reply
  unfolding remove_account
  delete_verified srv user_id none = (srv, thrown)
  delete_verified srv user_id (some false) = (srv, error 400 "Password is incorrect")
  delete_verified srv user_id (some true) = (remove_account srv user_id, done)

  delete_of_user : (Server → Server) → Server → String → Text → Option UserRow → Server × Reply
  unfolding delete_verified
  delete_of_user verifying srv user_id password none = (srv, error 404 "User not found")
  delete_of_user verifying srv user_id password (some user) =
      delete_verified (verifying srv) user_id (check_password p user password)

  pub delete_account : (Server → Server) → Server → String → Text → Server × Reply
  unfolding delete_of_user
  delete_account verifying srv user_id password =
      delete_of_user verifying srv user_id password (get_user_by_id srv.db user_id)
