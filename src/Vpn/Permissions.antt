-- ===== src/Vpn/Permissions.antt =====
-- `VpnPermissionStore` and `resolveProxy` of src/server/vpn-permissions.ts. The `Set` of user ids is a
-- list in the order of insertion; the proxy configuration is of any type.
pub mod Laws
use ppvda.Base.{
  Bool, true, false, ◌||◌, not, Option, none, some, String, List, [], ◌∷◌, ◌++◌, ite,
  string_discrete, if◌then◌else◌, any,
}

-- `'on' | 'off'`
pub data VpnDefault : Type 0 where
  on off : VpnDefault

pub record VpnPermissionStore : Type 0 where
  pub vpn_default : VpnDefault
  pub toggle_allowed : List String

pub new_store : VpnPermissionStore
new_store = record { vpn_default = on; toggle_allowed = [] }

-- `Set.has` and `Set.delete`
pub set_has : String → List String → Bool
set_has u [] = false
set_has u (v ∷ vs) = ite (string_discrete u v) true (set_has u vs)

pub set_delete : String → List String → List String
set_delete u [] = []
set_delete u (v ∷ vs) = let rest = set_delete u vs in ite (string_discrete u v) rest (v ∷ rest)

pub get_default : VpnPermissionStore → VpnDefault
get_default s = s.vpn_default

pub set_default : VpnPermissionStore → VpnDefault → VpnPermissionStore
set_default s value = record s { vpn_default = value }

pub grant_toggle : VpnPermissionStore → String → VpnPermissionStore
unfolding set_has
grant_toggle s user =
    if set_has user s.toggle_allowed
    then s
    else record s { toggle_allowed = s.toggle_allowed ++ user ∷ [] }

pub revoke_toggle : VpnPermissionStore → String → VpnPermissionStore
unfolding set_delete
revoke_toggle s user = record s { toggle_allowed = set_delete user s.toggle_allowed }

pub can_toggle : VpnPermissionStore → String → Bool
unfolding set_has
can_toggle s user = set_has user s.toggle_allowed

pub list_toggle_user_ids : VpnPermissionStore → List String
list_toggle_user_ids s = s.toggle_allowed

pub remove_user : VpnPermissionStore → String → VpnPermissionStore
unfolding set_delete
remove_user s user = record s { toggle_allowed = set_delete user s.toggle_allowed }

module _ {ℓ} {Proxy : Type ℓ} where
  default_proxy : VpnDefault → Proxy → Option Proxy
  default_proxy on proxy = some proxy
  default_proxy off proxy = none

  chosen_proxy : Option Bool → VpnDefault → Proxy → Option Proxy
  unfolding default_proxy
  chosen_proxy (some true) default proxy = some proxy
  chosen_proxy (some false) default proxy = none
  chosen_proxy none default proxy = default_proxy default proxy

  unfoldable pub resolve_proxy :
      Option Bool → String → Bool → VpnPermissionStore → Option Proxy → Option Proxy
  unfolding chosen_proxy default_proxy can_toggle get_default
  resolve_proxy use_vpn user is_admin permissions none = none
  resolve_proxy use_vpn user is_admin permissions (some proxy) =
      if not (is_admin || can_toggle permissions user)
      then default_proxy (get_default permissions) proxy
      else chosen_proxy use_vpn (get_default permissions) proxy
