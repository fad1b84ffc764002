-- ===== src/Auth/Account/Keeps.antt =====
-- What a change of the password keeps and what it ends; what the deletion of an account leaves.
use ppvda.Base.{ℕ, ◌≡◌, refl, subst, true, none, some, String}
use ppvda.Base.Text.{Text}
use ppvda.Crypto.{Primitives, IsLawful}
use ppvda.Db.{UserRow, get_user_by_id, get_darkreel_delegation, delete_darkreel_delegation}
use ppvda.Db.Laws.{IsConsistent}
use ppvda.Db.Lookups.{get_user_by_id-id, get_user_by_id-delete_user}
use ppvda.Auth.Password.{is_strong_password}
use ppvda.Auth.Sessions
use ppvda.Auth.Sessions.{delete_all_for_user}
use ppvda.Auth.Sessions.Hygiene.{IsValid}
use ppvda.Auth.Sessions.Steps.{delete_all_for_user-IsValid}
use ppvda.Auth.Sessions.Lookup.{get-set_session_at}
use ppvda.Auth.Server.{Server, Fresh, changed, done, check_password, create_session, payload_of}
use ppvda.Auth.Server.Unlock.{IsUnlocked, IsDrawn}
use ppvda.Auth.Server.Stored.{
  OpensWith, OnlySession, update_user_auth-OpensWith, delete_all_for_user-OnlySession,
  set_session-OnlySession,
}
use ppvda.Auth.Login.{LoginWaits}
use ppvda.Auth.Login.Opens.{session_at}
use ppvda.Auth.Account.{
  store_changed, reopened, old_verified, change_of_user, change_password, remove_account,
  delete_verified, delete_of_user, delete_account,
}

module _ (p : Primitives) where
  -- The state that a change of the password meets when it stores.
  abbrev pub awaited : LoginWaits → Server → Server
  awaited w srv = w.deriving_key (w.verifying srv)

  -- What is left behind.
  pub record IsChanged (after : Server) (user_id : String) (password key : Text) (f : Fresh)
      (now : ℕ) : Type 0 where
    pub opens : OpensWith p after.db user_id password f.recovery_code key
    pub only : OnlySession after.sessions user_id (some f.session_id)
    pub fresh :
        (later : ℕ)
        → (Sessions.get after.sessions f.session_id later).1 ≡ session_at now later user_id key

  change_password-eq :
      (w : LoginWaits) (srv : Server) (user_id : String) (old_password new_password : Text)
      (f : Fresh) (now : ℕ) (user : UserRow) (key : Text)
      → is_strong_password new_password ≡ true
      → get_user_by_id srv.db user_id ≡ some user
      → IsUnlocked p user old_password key
      → change_password p w srv user_id old_password new_password f now
        ≡ store_changed p (awaited w srv) user new_password key f now
  unfolding change_password
  change_password-eq w srv user_id old_password new_password f now user key strong found u =
      rw (strong, found, change_of_user, u.verified, old_verified, u.opens, reopened) refl

  store_changed_reply :
      (srv : Server) (user : UserRow) (password key : Text) (f : Fresh) (now : ℕ)
      → (store_changed p srv user password key f now).1
        ≡ changed (payload_of user f) (p.to_base64url f.recovery_code)
  unfolding store_changed create_session
  store_changed_reply srv user password key f now = refl

  module _ (law : IsLawful p) where
    store_changed-IsChanged :
        (srv : Server) (user : UserRow) (password key : Text) (f : Fresh) (now : ℕ)
        → IsConsistent srv.db
        → IsValid srv.sessions
        → IsDrawn p f
        → IsChanged (store_changed p srv user password key f now).0 user.id password key f now
    unfolding store_changed create_session
    store_changed-IsChanged srv user password key f now c v d =
        let kept = delete_all_for_user srv.sessions user.id in
        let w = delete_all_for_user-IsValid srv.sessions user.id v in
        record {
          opens = update_user_auth-OpensWith p law srv.db user.id password key f c d;
          only =
              set_session-OnlySession kept f.session_id user.id key now w
                (delete_all_for_user-OnlySession srv.sessions user.id v);
          fresh = λ later. get-set_session_at kept f.session_id user.id key now later w;
        }

    -- Where the new password is strong and the old one is that of the user, a change of the password
    -- keeps the master key: the row, if it is still there, opens with the new password and with the new
    -- recovery code to the same key, the fresh session is the only one of the user, and it gives the key
    -- for 24 hours; the reply has the code. The tables and sessions are well-formed when it stores.
    pub change_password_keeps :
        (w : LoginWaits) (srv : Server) (user_id : String) (old_password new_password : Text)
        (f : Fresh) (now : ℕ) (user : UserRow) (key : Text)
        → IsConsistent srv.db
        → IsConsistent (awaited w srv).db
        → IsValid (awaited w srv).sessions
        → IsDrawn p f
        → is_strong_password new_password ≡ true
        → get_user_by_id srv.db user_id ≡ some user
        → IsUnlocked p user old_password key
        → let (after, reply) = change_password p w srv user_id old_password new_password f now in
          (reply ≡ changed (payload_of user f) (p.to_base64url f.recovery_code))
          × IsChanged after user_id new_password key f now
    change_password_keeps w srv user_id old_password new_password f now user key c c' v d strong
          found u =
        let e =
          change_password-eq w srv user_id old_password new_password f now user key strong found
            u in
        let i = get_user_by_id-id srv.db user_id user c found in
        rw e (
          store_changed_reply (awaited w srv) user new_password key f now,
          subst
              (λ x.
                IsChanged (store_changed p (awaited w srv) user new_password key f now).0 x
                  new_password key f now)
              i (store_changed-IsChanged (awaited w srv) user new_password key f now c' v d),
        )

  -- The deletion of an account with its password leaves no row, no delegation and no session of the
  -- user, where the sessions are valid when the password was verified.
  pub delete_account_leaves :
      (verifying : Server → Server) (srv : Server) (user_id : String) (password : Text)
      (user : UserRow)
      → IsValid (verifying srv).sessions
      → get_user_by_id srv.db user_id ≡ some user
      → check_password p user password ≡ some true
      → let (after, reply) = delete_account p verifying srv user_id password in
        (reply ≡ done)
        × (get_user_by_id after.db user_id ≡ none)
        × (get_darkreel_delegation after.db user_id ≡ none)
        × OnlySession after.sessions user_id none
  unfolding delete_account
  delete_account_leaves verifying srv user_id password user v found right =
      let s = verifying srv in
      let (gone, unlinked) =
        get_user_by_id-delete_user (delete_darkreel_delegation s.db user_id).0 user_id in
      rw (found, delete_of_user, right, delete_verified, remove_account)
        (refl, gone, unlinked, delete_all_for_user-OnlySession s.sessions user_id v)
