-- ===== src/Vpn/Health.antt =====
-- The kill switch of src/mullvad/health.ts. The module's `state` is an `Option`; the result of `stat`
-- and the reply of the routing check come with a check, and `Date.now()` at its end is the argument
-- `now`. A check whose state was dropped while it waited throws on `state` and changes nothing. A start is
-- what stands before its two checks and what stands behind them; in between the module is running.
pub mod Fresh
use ppvda.Base.{
  ℕ, ◌-◌, Bool, true, false, ◌&&◌, not, Option, none, some, String, ltb, if◌then◌else◌, List, [],
  ◌∷◌, is_some, ◌++◌,
}
use ppvda.Base.Text.{Text, codes, lower, starts_with}

abbrev pub local_check_interval_ms : ℕ
local_check_interval_ms = 5_000

abbrev pub remote_check_interval_ms : ℕ
remote_check_interval_ms = 60_000

abbrev pub local_stale_ms : ℕ
local_stale_ms = 15_000

abbrev pub remote_stale_ms : ℕ
remote_stale_ms = 180_000

pub record HealthState : Type 0 where
  pub interface_ok : Bool
  pub routing_ok : Bool
  pub interface_last_check : ℕ
  pub routing_last_check : ℕ
  pub interface_error : Option String
  pub routing_error : Option String

-- What a check met: `none` where `stat` succeeds, and the message where it throws.
pub data Reply : Type 0 where
  body : Text → Reply
  threw : String → Reply

-- `text.includes(part)`
unfoldable pub includes : Text → Text → Bool
includes part [] = starts_with part []
includes part (c ∷ t) =
    let rest = includes part t in if starts_with part (c ∷ t) then true else rest

-- `ok` of a reply.
pub is_connected : Reply → Bool
unfolding includes
is_connected (body t) = includes (codes "you are connected") (lower t)
is_connected (threw e) = false

routing_message : Reply → Option String
unfolding is_connected
routing_message (body t) =
    if is_connected (body t)
    then none
    else some "am.i.mullvad.net reports traffic is not exiting via Mullvad"
routing_message (threw e) = some e

pub check_interface : Option HealthState → Option String → ℕ → Option HealthState
check_interface none error now = none
check_interface (some s) error now = some (record s {
  interface_ok = not (is_some error);
  interface_error = error;
  interface_last_check = now;
})

pub check_routing : Option HealthState → Reply → ℕ → Option HealthState
unfolding is_connected routing_message
check_routing none reply now = none
check_routing (some s) reply now = some (record s {
  routing_ok = is_connected reply;
  routing_error = routing_message reply;
  routing_last_check = now;
})

pub fresh_state : HealthState
fresh_state = record {
  interface_ok = false;
  routing_ok = false;
  interface_last_check = 0;
  routing_last_check = 0;
  interface_error = none;
  routing_error = none;
}

-- `startVpnHealthCheck` up to the wait for its first check: the state is there at once, so requests are
-- held back while it checks. Where a state is there already, the call throws.
pub begin_vpn_health_check : Option HealthState → Option HealthState
unfolding fresh_state
begin_vpn_health_check (some s) = some s
begin_vpn_health_check none = some fresh_state

-- What follows its two checks: where one failed, the state is dropped and the call throws.
pub conclude_vpn_health_check : Option HealthState → Option HealthState
conclude_vpn_health_check none = none
conclude_vpn_health_check (some s) = if s.interface_ok && s.routing_ok then some s else none

pub stop_vpn_health_check : Option HealthState → Option HealthState
stop_vpn_health_check s = none

unfoldable pub is_vpn_healthy : Option HealthState → Bool → ℕ → Bool
is_vpn_healthy none switching now = true
is_vpn_healthy (some s) switching now =
    if switching
    then false
    else s.interface_ok
      && s.routing_ok
      && ltb (now - s.interface_last_check) local_stale_ms
      && ltb (now - s.routing_last_check) remote_stale_ms

unfoldable pub is_vpn_kill_switch_enabled : Option HealthState → Bool
is_vpn_kill_switch_enabled s = is_some s
