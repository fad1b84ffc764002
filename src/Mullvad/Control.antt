-- ===== src/Mullvad/Control.antt =====
-- src/mullvad/index.ts: the devices that this instance registered, `setupMullvad`, `teardownMullvad` and
-- `switchMullvadCountry`. What the API, the supervisor and the file system reply is an argument, `none` or
-- `false` where the call throws; what goes out to them is a list of effects in its order. The file of
-- own devices is part of the state, `none` where it cannot be read. `stopTunnel` and `getDefaultGateway` of
-- src/mullvad/wireguard.ts catch their own errors, so no path ends there.
pub mod Devices
pub mod Leaks
pub mod Own
pub mod Switch
mod Tests
use ppvda.Base.{
  ℕ, Bool, true, false, ◌&&◌, ◌||◌, not, List, [], ◌∷◌, ◌++◌, Option, none, some, String, is_some,
  if◌then◌else◌, ite, string_discrete, any, map,
}
use ppvda.Base.Text.{Text}
use ppvda.Mullvad.Relays.{RelayServer, RelayCity, RelayCountry, find_relay}

pub record OwnDevice : Type 0 where
  pub id : String
  pubkey : String

pub record Config : Type 0 where
  pub account_number : Option String
  pub location : Text

pub record Mullvad : Type 0 where
  pub active_device : Option OwnDevice
  pub active_config : Option Config
  pub switching : Bool
  pub own_file : Option (List OwnDevice)

pub data MullvadEffect : Type 0 where
  -- A request to remove a device, with whether it succeeded; the new device; the file that was written.
  removes : String → Bool → MullvadEffect
  creates : OwnDevice → MullvadEffect
  saves : List OwnDevice → MullvadEffect
  -- The tunnel.
  stops : MullvadEffect
  starts : RelayServer → OwnDevice → MullvadEffect

pub load_own_devices : Mullvad → List OwnDevice
load_own_devices s = elim s.own_file [ none ↦ [] | some devices ↦ devices ]

-- The state and the effects of a write, and whether it succeeded.
pub save_own_devices : Bool → List OwnDevice → Mullvad → Mullvad × List MullvadEffect × Bool
save_own_devices true devices s = (record s { own_file = some devices }, saves devices ∷ [], true)
save_own_devices false devices s = (s, [], false)

pub has_id : String → OwnDevice → Bool
has_id id d = ite (string_discrete d.id id) true false

-- `devices.filter((d) => d.id !== id)`
pub without_id : String → List OwnDevice → List OwnDevice
unfolding has_id
without_id id [] = []
without_id id (d ∷ ds) = let rest = without_id id ds in if has_id id d then rest else d ∷ rest

pub is_same : OwnDevice → OwnDevice → Bool
is_same a b =
    ite (string_discrete a.id b.id) (ite (string_discrete a.pubkey b.pubkey) true false) false

-- The loop of `removeStaleOwnDevices`: what goes out, and what remains.
pub remove_listed :
    (String → Bool) → List OwnDevice → List OwnDevice → List MullvadEffect × List OwnDevice
unfolding is_same
remove_listed removal listed [] = ([], [])
remove_listed removal listed (d ∷ own) =
    let (fx, remaining) = remove_listed removal listed own in
    if not (any (is_same d) listed)
    then (fx, remaining)
    else if removal d.id
    then (removes d.id true ∷ fx, remaining)
    else (removes d.id false ∷ fx, d ∷ remaining)

-- What one operation meets. `listed` has no value where the list is not given.
pub record MullvadReplies : Type 0 where
  pub token : Bool
  pub listed : Option (List OwnDevice)
  pub removal : String → Bool
  pub writes_remaining : Bool
  pub relays : Option (List RelayCountry)
  pub random : ℕ
  pub device : Option OwnDevice
  pub writes_device : Bool
  pub starts_tunnel : Bool
  -- The calls of `deregisterDevice`.
  pub token_again : Bool
  pub removes_device : Bool
  pub writes_forgotten : Bool

-- An operation that throws, with what is left.
pub data SetupOutcome : Type 0 where
  threw finished : SetupOutcome

remaining_saved :
    Bool → Mullvad → List MullvadEffect × List OwnDevice → Mullvad × List MullvadEffect × Bool
unfolding save_own_devices
remaining_saved ok s (fx, remaining) =
    let (s', written, saved) = save_own_devices ok remaining s in (s', fx ++ written, saved)

with_listed :
    MullvadReplies
    → Mullvad
    → List OwnDevice
    → Option (List OwnDevice)
    → Mullvad × List MullvadEffect × Bool
unfolding remaining_saved remove_listed
with_listed r s own none = (s, [], false)
with_listed r s own (some listed) =
    remaining_saved r.writes_remaining s (remove_listed r.removal listed own)

stale_of : MullvadReplies → Mullvad → List OwnDevice → Mullvad × List MullvadEffect × Bool
unfolding with_listed
stale_of r s [] = (s, [], true)
stale_of r s (d ∷ own) = with_listed r s (d ∷ own) r.listed

pub remove_stale_own_devices : MullvadReplies → Mullvad → Mullvad × List MullvadEffect × Bool
unfolding stale_of load_own_devices
remove_stale_own_devices r s = stale_of r s (load_own_devices s)

-- `forgetOwnDevice`, behind a removal that succeeded.
forget : Bool → String → Mullvad → Mullvad × List MullvadEffect × Bool
unfolding save_own_devices without_id load_own_devices
forget ok id s = save_own_devices ok (without_id id (load_own_devices s)) s

removal_tried : Bool → Bool → String → Mullvad → Mullvad × List MullvadEffect × Bool
unfolding forget
removal_tried writes false id s = (s, removes id false ∷ [], false)
removal_tried writes true id s =
    let (s', fx, ok) = forget writes id s in (s', removes id true ∷ fx, ok)

-- With a token or without one.
deregister_with : MullvadReplies → OwnDevice → Mullvad → Bool → Mullvad × List MullvadEffect × Bool
unfolding removal_tried
deregister_with r d s true = removal_tried r.writes_forgotten r.removes_device d.id s
deregister_with r d s false = (s, [], false)

pub deregister_device : MullvadReplies → OwnDevice → Mullvad → Mullvad × List MullvadEffect × Bool
unfolding deregister_with
deregister_device r d s = deregister_with r d s r.token_again

-- The device is recorded, and the tunnel is brought up or the device removed again.
pub recorded : Bool → OwnDevice → Mullvad → Mullvad × List MullvadEffect × Bool
unfolding save_own_devices without_id load_own_devices
recorded ok d s = save_own_devices ok (without_id d.id (load_own_devices s) ++ d ∷ []) s

pub brought_up :
    MullvadReplies
    → RelayServer
    → OwnDevice
    → Mullvad
    → Bool
    → Mullvad × List MullvadEffect × SetupOutcome
unfolding deregister_device
brought_up r server d s true = (s, stops ∷ starts server d ∷ [], finished)
brought_up r server d s false =
    let (s', fx, ok) = deregister_device r d s in
    (record s' { active_device = none }, stops ∷ starts server d ∷ fx, threw)

with_recorded :
    MullvadReplies
    → RelayServer
    → OwnDevice
    → Mullvad × List MullvadEffect × Bool
    → Mullvad × List MullvadEffect × SetupOutcome
unfolding brought_up
with_recorded r server d (s, fx, ok) =
    let (s', gx, o) = brought_up r server d s r.starts_tunnel in (s', fx ++ gx, o)

with_device :
    MullvadReplies
    → RelayServer
    → Mullvad
    → Option OwnDevice
    → Mullvad × List MullvadEffect × SetupOutcome
unfolding with_recorded recorded
with_device r server s none = (s, [], threw)
with_device r server s (some d) =
    let (s', fx, o) =
      with_recorded r server d (recorded r.writes_device d (record s { active_device = some d })) in
    (s', creates d ∷ fx, o)

-- The relay for the location.
pub chosen_relay :
    MullvadReplies
    → Text
    → Option (List RelayCountry)
    → Option (RelayCountry × RelayCity × RelayServer)
chosen_relay r location none = none
chosen_relay r location (some relays) = find_relay r.random relays location

with_relay :
    MullvadReplies
    → Mullvad
    → Option (RelayCountry × RelayCity × RelayServer)
    → Mullvad × List MullvadEffect × SetupOutcome
unfolding with_device
with_relay r s none = (s, [], threw)
with_relay r s (some (country, city, server)) = with_device r server s r.device

after_stale :
    MullvadReplies
    → Config
    → Mullvad × List MullvadEffect × Bool
    → Mullvad × List MullvadEffect × SetupOutcome
unfolding with_relay chosen_relay
after_stale r config (s, fx, false) = (s, fx, threw)
after_stale r config (s, fx, true) =
    let (s', gx, o) = with_relay r s (chosen_relay r config.location r.relays) in (s', fx ++ gx, o)

-- With the first token or without one.
set_up : MullvadReplies → Config → Mullvad → Bool → Mullvad × List MullvadEffect × SetupOutcome
unfolding after_stale remove_stale_own_devices
set_up r config s false = (s, [], threw)
set_up r config s true = after_stale r config (remove_stale_own_devices r s)

pub setup_mullvad : MullvadReplies → Config → Mullvad → Mullvad × List MullvadEffect × SetupOutcome
unfolding set_up
setup_mullvad r config s = set_up r config (record s { active_config = some config }) r.token
