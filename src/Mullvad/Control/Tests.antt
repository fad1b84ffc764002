-- ===== src/Mullvad/Control/Tests.antt =====
-- A set-up whose tunnel fails, a switch, and the theorems at these inputs.
use ppvda.Base.{◌≡◌, refl, All, Bool, true, false, [], ◌∷◌, none, some, string_discrete}
use ppvda.Base.Sort.{sort_by}
use ppvda.Base.Text.{codes}
use ppvda.Mullvad.Relays.{find_relay, RelayServer, RelayCountry}
use ppvda.Mullvad.Control.{
  OwnDevice, Config, Mullvad, removes, creates, saves, stops, starts, MullvadReplies, threw,
  setup_mullvad, load_own_devices,
}
use ppvda.Mullvad.Control.Devices.{MadeIsTracked}
use ppvda.Mullvad.Control.Leaks.{setup_mullvad_tracked}
use ppvda.Mullvad.Control.Own.{RemovesOwn, setup_mullvad-RemovesOwn}
use ppvda.Mullvad.Control.Switch.{switch_mullvad_country}
use ppvda.Mullvad.Control.Switch.Settles.{IsSwitch, switch_mullvad_country_settles}

abbrev server : RelayServer
server = record {
  hostname = codes "se1";
  public_key = codes "k";
  ipv4_addr_in = codes "8.8.8.8";
  weight = 1;
  active = true;
}

abbrev sweden : RelayCountry
sweden = record {
  name = codes "Sweden";
  code = codes "se";
  cities = record { name = codes "Malmo"; code = codes "se-mma"; relays = server ∷ [] } ∷ [];
}

abbrev old : OwnDevice
old = record { id = "d1"; pubkey = "k1" }

abbrev made : OwnDevice
made = record { id = "d2"; pubkey = "k2" }

abbrev replies : Bool → MullvadReplies
replies up = record {
  token = true;
  listed = some (old ∷ []);
  removal = λ id. true;
  writes_remaining = true;
  relays = some (sweden ∷ []);
  random = 5;
  device = some made;
  writes_device = true;
  starts_tunnel = up;
  token_again = true;
  removes_device = true;
  writes_forgotten = true;
}

abbrev start : Mullvad
start = record {
  active_device = none;
  active_config = none;
  switching = false;
  own_file = some (old ∷ []);
}

abbrev config : Config
config = record { account_number = some "1"; location = codes "se" }

-- The tunnel does not come up: the old device and the new one are removed, and the file is empty.
failed_set_up : setup_mullvad (replies false) config start ≡ (
  record start { active_config = some config; own_file = some [] },
  removes "d1" true
      ∷ saves []
      ∷ creates made
      ∷ saves (made ∷ [])
      ∷ stops
      ∷ starts server made
      ∷ removes "d2" true
      ∷ saves []
      ∷ [],
  threw,
)
unfolding setup_mullvad find_relay string_discrete sort_by
failed_set_up = refl

setup_mullvad_tracked_example :
    All
      (MadeIsTracked
        (setup_mullvad (replies false) config start).0
        (setup_mullvad (replies false) config start).1)
      (setup_mullvad (replies false) config start).1
setup_mullvad_tracked_example = setup_mullvad_tracked (replies false) config start refl

setup_mullvad-RemovesOwn_example :
    All
      (RemovesOwn (replies false) (load_own_devices start))
      (setup_mullvad (replies false) config start).1
setup_mullvad-RemovesOwn_example = setup_mullvad-RemovesOwn (replies false) config start

abbrev running : Mullvad
running = record start { active_device = some made; active_config = some config }

switch_mullvad_country_settles_example :
    ((switch_mullvad_country
        (λ s. s)
        (λ s. s)
        (λ s. s)
        (replies true)
        (codes "se-mma")
        running).0.switching
      ≡ false)
    × IsSwitch
        (λ s. s)
        (λ s. s)
        (λ s. s)
        (replies true)
        (codes "se-mma")
        running
        (switch_mullvad_country (λ s. s) (λ s. s) (λ s. s) (replies true) (codes "se-mma") running)
switch_mullvad_country_settles_example =
    switch_mullvad_country_settles (λ s. s) (λ s. s) (λ s. s) (replies true) (codes "se-mma")
      running
