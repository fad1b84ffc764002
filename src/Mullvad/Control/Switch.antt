-- ===== src/Mullvad/Control/Switch.antt =====
-- `teardownMullvad`, `switchMullvadCountry` and the status of src/mullvad/index.ts. What other requests
-- do while the relays are fetched, while the tunnel stops and while the new one comes up are `fetching`,
-- `stopping` and `starting`. `stopTunnel` and `getDefaultGateway` of src/mullvad/wireguard.ts catch their
-- own errors, so neither of them ends a switch.
pub mod Settles
use ppvda.Base.{
  ℕ, Bool, true, false, ◌&&◌, ◌||◌, not, List, [], ◌∷◌, ◌++◌, Option, none, some, String, is_some,
  if◌then◌else◌,
}
use ppvda.Base.Text.{Text}
use ppvda.Mullvad.Relays.{RelayServer, RelayCity, RelayCountry, find_relay}
use ppvda.Mullvad.Control.{
  OwnDevice, Config, Mullvad, MullvadEffect, stops, starts, MullvadReplies, deregister_device,
  chosen_relay,
}

ended : Mullvad → Mullvad
ended s = record s { active_device = none; active_config = none }

with_active : MullvadReplies → Mullvad → Option OwnDevice → Mullvad × List MullvadEffect
unfolding ended
with_active r s none = (ended s, stops ∷ [])
with_active r s (some d) =
    let (s', fx, ok) = deregister_device r d s in (ended s', fx ++ stops ∷ [])

pub teardown_mullvad : MullvadReplies → Mullvad → Mullvad × List MullvadEffect
unfolding with_active
teardown_mullvad r s = if is_some s.active_config then with_active r s s.active_device else (s, [])

-- The names of the country and of the city, where the switch succeeds.
abbrev pub Switched : Type 0
Switched = Mullvad × List MullvadEffect × Option (Text × Text)

-- `{ ...activeConfig, location }`: a spread of `null` has no account number.
with_location : Text → Option Config → Config
with_location location none = record { account_number = none; location = location }
with_location location (some c) = record c { location = location }

-- The tunnel comes up and the location is stored in what is configured then, or the call throws.
after_start : Mullvad → Text → RelayCountry → RelayCity → RelayServer → OwnDevice → Bool → Switched
unfolding with_location
after_start s location country city server d true = (
  record s { active_config = some (with_location location s.active_config) },
  stops ∷ starts server d ∷ [],
  some (country.name, city.name),
)
after_start s location country city server d false = (s, stops ∷ starts server d ∷ [], none)

-- What is read again behind the wait for the tunnel: an access to `null` throws.
pub after_stop :
    (Mullvad → Mullvad)
    → MullvadReplies
    → Text
    → RelayCountry × RelayCity × RelayServer
    → Mullvad
    → Option Config
    → Option OwnDevice
    → Switched
unfolding after_start
after_stop starting r location (country, city, server) s (some c) (some d) =
    after_start (starting s) location country city server d r.starts_tunnel
after_stop starting r location found s _ _ = (s, stops ∷ [], none)

after_fetch :
    (Mullvad → Mullvad)
    → (Mullvad → Mullvad)
    → MullvadReplies
    → Text
    → Mullvad
    → Option Config
    → Option (RelayCountry × RelayCity × RelayServer)
    → Switched
unfolding after_stop
after_fetch stopping starting r location s _ none = (s, [], none)
after_fetch stopping starting r location s none (some found) = (s, [], none)
after_fetch stopping starting r location s (some c) (some found) =
    after_stop starting r location found (stopping s) (stopping s).active_config
      (stopping s).active_device

-- The `finally`.
pub settle : Switched → Switched
settle (s, fx, o) = (record s { switching = false }, fx, o)

pub switch_body :
    (Mullvad → Mullvad)
    → (Mullvad → Mullvad)
    → (Mullvad → Mullvad)
    → MullvadReplies
    → Text
    → Mullvad
    → Switched
unfolding after_fetch chosen_relay
switch_body fetching stopping starting r location s =
    let s' = fetching (record s { switching = true }) in
    after_fetch stopping starting r location s' s'.active_config (chosen_relay r location r.relays)

-- Where the switch may begin: with a configuration and a device, and not twice.
pub may_switch : Option Config → Option OwnDevice → Bool → Bool
may_switch (some c) (some d) switching = not switching
may_switch _ _ switching = false

pub switch_mullvad_country :
    (Mullvad → Mullvad)
    → (Mullvad → Mullvad)
    → (Mullvad → Mullvad)
    → MullvadReplies
    → Text
    → Mullvad
    → Switched
unfolding settle switch_body may_switch
switch_mullvad_country fetching stopping starting r location s =
    if may_switch s.active_config s.active_device s.switching
    then settle (switch_body fetching stopping starting r location s)
    else (s, [], none)

pub is_vpn_switching : Mullvad → Bool
is_vpn_switching s = s.switching

-- `getVpnStatus`
pub get_vpn_status : Mullvad → Bool × Option Text
get_vpn_status s =
    (is_some s.active_config, elim s.active_config [ none ↦ none | some c ↦ some c.location ])
