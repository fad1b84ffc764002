-- ===== src/Server/Settings/Delegation.antt =====
-- A connection that was stored is given back, also after a change of the password.
use ppvda.Base.{arith, ℕ, ◌≡◌, refl, Bool, some, String}
use ppvda.Base.Text.{Text, codes}
use ppvda.Crypto.{Primitives, IsLawful}
use ppvda.Crypto.RoundTrip.{decrypt-encrypt}
use ppvda.Db.{save_darkreel_delegation, UserRow, AuthFields, get_user_by_id, update_user_auth}
use ppvda.Db.Delegations.{get_darkreel_delegation-save, get_darkreel_delegation-update_user_auth}
use ppvda.Auth.Sessions
use ppvda.Auth.Sessions.{SessionStore, get_key_for_user}
use ppvda.Auth.Server.{Server}
use ppvda.Server.Settings.{
  Attempt, given, DarkreelConnection, connected, delegation_row, saved, with_key, with_conn,
  with_origin, connect, ok, with_user_key, of_delegation, get_user_darkreel_delegation,
}

module _ (p : Primitives) (law : IsLawful p) where
  -- A row that was made for a connection gives it back under the same key.
  of_delegation-row :
      (store : SessionStore) (user_id : String) (later week : ℕ) (conn : DarkreelConnection)
      (key nonce : Text)
      → (get_key_for_user store user_id later).1 ≡ some key
      → (of_delegation p store user_id later
          (some (record (delegation_row p user_id conn key nonce) { connected_at = week }))).1
        ≡ ok conn
  unfolding of_delegation delegation_row with_user_key
  of_delegation-row store user_id later week conn key nonce h =
      rw
        (
          h,
          with_user_key,
          decrypt-encrypt p law conn.refresh_token key (some (codes user_id)) nonce,
        )
        refl

  -- The session is that of the user.
  with_key_own :
      (srv : Server) (user_id : String) (conn : DarkreelConnection) (nonce : Text) (week : ℕ)
      (key : Text)
      → with_key p srv user_id conn nonce week (some (user_id, key))
        ≡ saved srv conn
            (save_darkreel_delegation srv.db (delegation_row p user_id conn key nonce) week)
  unfolding with_key
  with_key_own srv user_id conn nonce week key = ground arith

  module _ (normalize : String → Bool → Attempt String)
      (exchange : String → String → Bool → Attempt DarkreelConnection)
      (meanwhile : Server → Server) where
    -- A user who connects Darkreel with a live session of their own, while their row is there, gets the
    -- connection back at any later time at which a session gives the same master key, and also after
    -- a change of the password.
    pub get_user_darkreel_delegation-connect :
        (srv : Server) (user_id sid : String) (is_admin : Bool) (server_url code origin : String)
        (nonce : Text) (week now later : ℕ) (conn : DarkreelConnection) (key : Text)
        (user : UserRow) (store : SessionStore) (f : AuthFields)
        → normalize server_url is_admin ≡ given origin
        → exchange origin code is_admin ≡ given conn
        → (Sessions.get (meanwhile srv).sessions sid now).1 ≡ some (user_id, key)
        → get_user_by_id (meanwhile srv).db user_id ≡ some user
        → (get_key_for_user store user_id later).1 ≡ some key
        → let (after, reply) =
            connect p normalize exchange meanwhile srv user_id sid is_admin server_url code nonce
              week now in
          (reply ≡ connected conn)
          × ((get_user_darkreel_delegation p after.db store user_id later).1 ≡ ok conn)
          × ((get_user_darkreel_delegation p
                (update_user_auth after.db user_id f)
                store
                user_id
                later).1
              ≡ ok conn)
    unfolding connect get_user_darkreel_delegation saved delegation_row
    get_user_darkreel_delegation-connect srv user_id sid is_admin server_url code origin nonce week
          now later conn key user store f n e live row k =
        let (db', saves, found) =
          get_darkreel_delegation-save (meanwhile srv).db (delegation_row p user_id conn key nonce)
            week user row in
        let gives = of_delegation-row store user_id later week conn key nonce k in
        rw
          (
            n,
            with_origin,
            e,
            with_conn,
            live,
            with_key_own
                (record (meanwhile srv) {
                  sessions = (Sessions.get (meanwhile srv).sessions sid now).0;
                })
                user_id conn nonce week key,
            saves,
          )
          (
            refl,
            rw found gives,
            rw (get_darkreel_delegation-update_user_auth db' user_id f user_id, found) gives,
          )
