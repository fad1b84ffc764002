-- ===== src/Server/Admin.antt =====
-- `adminRoutes` of src/server/routes/admin.ts. A request has passed `authenticate` and `requireAdmin`; the
-- schema of a body is checked before. What other requests do while a password is hashed is `meanwhile`.
pub mod Deletion
mod Tests
use ppvda.Base.{
  ℕ, Bool, true, false, not, List, [], ◌∷◌, Option, none, some, String, ite, string_discrete,
  if◌then◌else◌, is_some, map,
}
use ppvda.Base.Text.{Text, codes}
use ppvda.Crypto.{Primitives}
use ppvda.Db.{
  Db, UserRow, list_users, get_user_by_username, get_user_by_id, delete_user, set_setting,
}
use ppvda.Auth.Password.{is_valid_username, is_strong_password}
use ppvda.Auth.Sessions.{delete_all_for_user}
use ppvda.Auth.Server.{Server, Fresh}
use ppvda.Auth.Register.{create_user}
use ppvda.Vpn.Permissions.{
  VpnDefault, VpnPermissionStore, get_default, set_default, list_toggle_user_ids, grant_toggle,
  revoke_toggle, remove_user,
}
use ppvda.Mullvad.Relays.{RelayCountry}
use ppvda.Mullvad.Control.{Mullvad, MullvadEffect, MullvadReplies}
use ppvda.Mullvad.Control.Switch.{Switched, switch_mullvad_country, get_vpn_status}

pub record AdminServer : Type 0 where
  pub server : Server
  pub permissions : VpnPermissionStore
  pub vpn : Mullvad

pub data AdminReply : Type 0 where
  failed : ℕ → String → AdminReply
  thrown deleted toggled : AdminReply
  users : List UserRow → AdminReply
  created : String → String → Text → AdminReply
  registration : Bool → AdminReply
  relays : List RelayCountry → Option Text → AdminReply
  switched : Text × Text → Text → AdminReply
  permissions_are : VpnDefault → List String → AdminReply
  default_is : VpnDefault → AdminReply

-- `GET /admin/users`
pub get_users : AdminServer → AdminReply
get_users a = users (list_users a.server.db)

after_create : AdminServer → String → Option (Db × String × Text) → AdminServer × AdminReply
after_create a username none = (a, thrown)
after_create a username (some (db, id, code)) =
    (record a { server = record a.server { db = db } }, created id username code)

-- `POST /admin/users`
pub post_user :
    Primitives
    → (AdminServer → AdminServer)
    → AdminServer
    → String
    → Text
    → Option Bool
    → Fresh
    → AdminServer × AdminReply
unfolding after_create
post_user p meanwhile a username password is_admin f =
    let admin : Bool = elim is_admin [ none ↦ false | some b ↦ b ] in
    if not (is_valid_username (codes username))
    then (a, failed 400 "Username must be 3-64 alphanumeric characters")
    else if not (is_strong_password password)
    then (
      a,
      failed 400
          "16-128 characters with at least one letter, one number, and one symbol (no spaces)",
    )
    else if is_some (get_user_by_username a.server.db username)
    then (a, failed 409 "Username already exists")
    else after_create (meanwhile a) username
        (create_user p (meanwhile a).server.db username password admin f)

-- The sessions and the permission go before the row is looked for.
without_access : AdminServer → String → AdminServer
without_access a id = record a {
  server = record a.server { sessions = delete_all_for_user a.server.sessions id };
  permissions = remove_user a.permissions id;
}

row_deleted : AdminServer → Db × Bool → AdminServer × AdminReply
row_deleted a (db, true) = (record a { server = record a.server { db = db } }, deleted)
row_deleted a (db, false) =
    (record a { server = record a.server { db = db } }, failed 404 "User not found")

-- `DELETE /admin/users/:id`, by the administrator of an id.
pub delete_user_route : AdminServer → String → String → AdminServer × AdminReply
unfolding without_access row_deleted
delete_user_route a admin_id id =
    ite (string_discrete id admin_id) (a, failed 400 "Cannot delete your own account")
      (row_deleted (without_access a id) (delete_user a.server.db id))

-- `POST /admin/registration`
pub post_registration : AdminServer → Bool → AdminServer × AdminReply
post_registration a enabled = (
  record a {
    server = record a.server {
      db = set_setting a.server.db "allow_registration" (if enabled then "true" else "false");
    };
  },
  registration enabled,
)

relays_reply : Option Text → Option (List RelayCountry) → AdminReply
relays_reply location none = failed 500 "Failed to fetch relay list"
relays_reply location (some countries) = relays countries location

-- `GET /admin/vpn/relays`, with the list that the API gives.
pub get_vpn_relays : AdminServer → Option (List RelayCountry) → AdminReply
unfolding relays_reply
get_vpn_relays a list =
    let (is_configured, location) = get_vpn_status a.vpn in
    if not is_configured
    then failed 400 "VPN is not configured on this server"
    else relays_reply location list

switch_reply : AdminServer → Text → Switched → AdminServer × List MullvadEffect × AdminReply
switch_reply a location (vpn, fx, none) =
    (record a { vpn = vpn }, fx, failed 400 "Country switch failed")
switch_reply a location (vpn, fx, some names) =
    (record a { vpn = vpn }, fx, switched names location)

-- `POST /admin/vpn/switch`; the text of an error is the one of the exception, which is left out.
pub post_vpn_switch :
    (Mullvad → Mullvad)
    → (Mullvad → Mullvad)
    → (Mullvad → Mullvad)
    → MullvadReplies
    → AdminServer
    → Text
    → AdminServer × List MullvadEffect × AdminReply
unfolding switch_reply
post_vpn_switch fetching stopping starting r a location =
    if not (get_vpn_status a.vpn).0
    then (a, [], failed 400 "VPN is not configured on this server")
    else switch_reply a location
        (switch_mullvad_country fetching stopping starting r location a.vpn)

-- `GET /admin/vpn/permissions` and `PUT /admin/vpn/default`
pub get_vpn_permissions : AdminServer → AdminReply
get_vpn_permissions a =
    permissions_are (get_default a.permissions) (list_toggle_user_ids a.permissions)

pub put_vpn_default : AdminServer → VpnDefault → AdminServer × AdminReply
put_vpn_default a value =
    (record a { permissions = set_default a.permissions value }, default_is value)

-- `PUT /admin/vpn/user-toggle`
pub put_user_toggle : AdminServer → String → Bool → AdminServer × AdminReply
put_user_toggle a user_id allowed =
    if not (is_some (get_user_by_id a.server.db user_id))
    then (a, failed 404 "User not found")
    else if allowed
    then (record a { permissions = grant_toggle a.permissions user_id }, toggled)
    else (record a { permissions = revoke_toggle a.permissions user_id }, toggled)
