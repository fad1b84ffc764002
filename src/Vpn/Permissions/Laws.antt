-- ===== src/Vpn/Permissions/Laws.antt =====
-- Who may choose the route, after any history of the store, and which route a request takes.
use ppvda.Base.{
  Bool, true, false, Option, none, some, String, List, [], ◌∷◌, ◌++◌, ◌≡◌, refl, inl, inr, arith,
  Bool-cases, not, ◌∙◌, ◌||◌, ite, string_discrete, if◌then◌else◌,
}
use ppvda.Vpn.Permissions.{
  VpnDefault, on, off, VpnPermissionStore, new_store, set_has, set_delete, set_default,
  grant_toggle, revoke_toggle, remove_user, can_toggle, get_default, resolve_proxy, chosen_proxy,
  default_proxy,
}

pub data Change : Type 0 where
  grants revokes removes : String → Change
  defaults : VpnDefault → Change

pub step : VpnPermissionStore → Change → VpnPermissionStore
unfolding grant_toggle revoke_toggle remove_user set_default
step s (grants u) = grant_toggle s u
step s (revokes u) = revoke_toggle s u
step s (removes u) = remove_user s u
step s (defaults d) = set_default s d

-- The store after a history, the newest change first.
pub run : List Change → VpnPermissionStore
unfolding step new_store
run [] = new_store
run (c ∷ cs) = step (run cs) c

-- The newest change that names the user is a grant.
pub was_granted : String → List Change → Bool
was_granted u [] = false
was_granted u (grants v ∷ cs) = ite (string_discrete u v) true (was_granted u cs)
was_granted u (revokes v ∷ cs) = ite (string_discrete u v) false (was_granted u cs)
was_granted u (removes v ∷ cs) = ite (string_discrete u v) false (was_granted u cs)
was_granted u (defaults d ∷ cs) = was_granted u cs

-- The newest default.
pub last_default : List Change → VpnDefault
last_default [] = on
last_default (defaults d ∷ cs) = d
last_default (c ∷ cs) = last_default cs

set_has-append :
    (u v : String) (vs : List String)
    → set_has u (vs ++ v ∷ []) ≡ ite (string_discrete u v) true (set_has u vs)
unfolding set_has
set_has-append u v [] = refl
set_has-append u v (w ∷ vs) = ground (arith, set_has-append u v vs)

set_has-delete :
    (u v : String) (vs : List String)
    → set_has u (set_delete v vs) ≡ ite (string_discrete u v) false (set_has u vs)
unfolding set_has set_delete
set_has-delete u v [] = ground arith
set_has-delete u v (w ∷ vs) = ground (arith, set_has-delete u v vs)

pub can_toggle-remove_user :
    (s : VpnPermissionStore) (u : String) → can_toggle (remove_user s u) u ≡ false
unfolding can_toggle remove_user
can_toggle-remove_user s u = set_has-delete u u s.toggle_allowed ∙ ground arith

can_toggle-grant :
    (s : VpnPermissionStore) (u v : String)
    → can_toggle (grant_toggle s v) u ≡ ite (string_discrete u v) true (can_toggle s u)
unfolding can_toggle grant_toggle
can_toggle-grant s u v = elim (Bool-cases (set_has v s.toggle_allowed)) [
  | inl e ↦ ground (arith, e)
  | inr e ↦ rw e (set_has-append u v s.toggle_allowed)
]

can_toggle-step :
    (s : VpnPermissionStore) (c : Change) (cs : List Change) (u : String)
    → can_toggle s u ≡ was_granted u cs
    → can_toggle (step s c) u ≡ was_granted u (c ∷ cs)
unfolding step was_granted revoke_toggle remove_user set_default can_toggle
can_toggle-step s (grants v) cs u h = can_toggle-grant s u v ∙ rw h refl
can_toggle-step s (revokes v) cs u h = set_has-delete u v s.toggle_allowed ∙ rw h refl
can_toggle-step s (removes v) cs u h = set_has-delete u v s.toggle_allowed ∙ rw h refl
can_toggle-step s (defaults d) cs u h = h

-- After any history of grants, revocations, removals and defaults, exactly those users may choose
-- for whom the newest change that names them is a grant.
pub can_toggle-run : (cs : List Change) (u : String) → can_toggle (run cs) u ≡ was_granted u cs
unfolding run was_granted can_toggle new_store set_has
can_toggle-run [] u = refl
can_toggle-run (c ∷ cs) u = can_toggle-step (run cs) c cs u (can_toggle-run cs u)

get_default-run : (cs : List Change) → get_default (run cs) ≡ last_default cs
unfolding run last_default get_default step new_store set_default grant_toggle revoke_toggle
    remove_user
get_default-run [] = refl
get_default-run (grants u ∷ cs) = elim (Bool-cases (set_has u (run cs).toggle_allowed)) [
  | inl e ↦ rw e (get_default-run cs)
  | inr e ↦ rw e (get_default-run cs)
]
get_default-run (revokes u ∷ cs) = get_default-run cs
get_default-run (removes u ∷ cs) = get_default-run cs
get_default-run (defaults d ∷ cs) = refl

-- The wish that counts: only a user who may choose has one.
pub wish : Option Bool → Bool → VpnDefault → VpnDefault
wish (some true) true d = on
wish (some false) true d = off
wish _ _ d = d

pub route {ℓ} : {Proxy : Type ℓ} → VpnDefault → Proxy → Option Proxy
route on proxy = some proxy
route off proxy = none

default_proxy-route {ℓ} :
    {Proxy : Type ℓ} (d : VpnDefault) (proxy : Proxy) → default_proxy d proxy ≡ route d proxy
unfolding default_proxy route
default_proxy-route on proxy = refl
default_proxy-route off proxy = refl

choice-route {ℓ} :
    {Proxy : Type ℓ} (use_vpn : Option Bool) (may : Bool) (d : VpnDefault) (proxy : Proxy)
    → (if not may then default_proxy d proxy else chosen_proxy use_vpn d proxy)
      ≡ route (wish use_vpn may d) proxy
unfolding chosen_proxy wish route
choice-route none true d proxy = default_proxy-route d proxy
choice-route (some true) true d proxy = refl
choice-route (some false) true d proxy = refl
choice-route none false d proxy = default_proxy-route d proxy
choice-route (some true) false d proxy = default_proxy-route d proxy
choice-route (some false) false d proxy = default_proxy-route d proxy

-- After any history of the store, a request with a proxy configured takes the route that its user
-- wished if the user is an administrator or the newest change that names him is a grant, and else,
-- or where no wish was given, the newest default.
resolve_proxy-run {ℓ} :
    {Proxy : Type ℓ} (cs : List Change) (use_vpn : Option Bool) (u : String) (admin : Bool)
    (proxy : Proxy)
    → resolve_proxy use_vpn u admin (run cs) (some proxy)
      ≡ route (wish use_vpn (admin || was_granted u cs) (last_default cs)) proxy
unfolding resolve_proxy
resolve_proxy-run cs use_vpn u admin proxy =
    choice-route use_vpn (admin || can_toggle (run cs) u) (get_default (run cs)) proxy
    ∙ rw (can_toggle-run cs u, get_default-run cs) refl
