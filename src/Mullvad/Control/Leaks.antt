-- ===== src/Mullvad/Control/Leaks.antt =====
-- No device is leaked by a set-up that fails.
use ppvda.Base.{
  all, ◌≡◌, Bool, true, false, List, [], ◌∷◌, ◌++◌, Option, none, some, String, any, All,
  All-append, All-map, Bool-cases, inl, inr,
}
use ppvda.Mullvad.Relays.{RelayServer, RelayCity, RelayCountry}
use ppvda.Mullvad.Control.{
  OwnDevice, Config, Mullvad, MullvadEffect, removes, creates, saves, stops, starts, MullvadReplies,
  load_own_devices, is_same, remove_listed, remaining_saved, with_listed, stale_of,
  remove_stale_own_devices, recorded, brought_up, with_recorded, with_device, chosen_relay,
  with_relay, after_stale, set_up, setup_mullvad,
}
use ppvda.Mullvad.Control.Devices.{
  MadeIsTracked, NotMade, NotMade-MadeIsTracked, Tracked-append, brought_up-NotMade,
  brought_up-Tracked, recorded-InFile, save_own_devices-NotMade,
}

-- Everything that is made is tracked when the last part of the set-up is.
Settled : Mullvad → List MullvadEffect → Type 0
Settled s fx = All (MadeIsTracked s fx) fx

All-NotMade-Settled :
    (s : Mullvad) (all fx : List MullvadEffect) → All NotMade fx → All (MadeIsTracked s all) fx
All-NotMade-Settled s all fx h =
    All-map NotMade (MadeIsTracked s all) fx (NotMade-MadeIsTracked s all) h

MadeIsTracked-append :
    (s : Mullvad) (fx gx : List MullvadEffect) (x : MullvadEffect)
    → MadeIsTracked s gx x
    → MadeIsTracked s (fx ++ gx) x
unfolding MadeIsTracked
MadeIsTracked-append s fx gx (creates d) h = Tracked-append s fx gx d h
MadeIsTracked-append s fx gx (removes id ok) h = tt
MadeIsTracked-append s fx gx (saves ds) h = tt
MadeIsTracked-append s fx gx stops h = tt
MadeIsTracked-append s fx gx (starts server d) h = tt

Settled-append :
    (s : Mullvad) (fx gx : List MullvadEffect)
    → All NotMade fx
    → Settled s gx
    → Settled s (fx ++ gx)
unfolding Settled
Settled-append s fx gx n h =
    All-append (MadeIsTracked s (fx ++ gx)) fx gx (All-NotMade-Settled s (fx ++ gx) fx n) (
      All-map (MadeIsTracked s gx) (MadeIsTracked s (fx ++ gx)) gx (MadeIsTracked-append s fx gx) h)

with_device-Settled :
    (r : MullvadReplies) (server : RelayServer) (s : Mullvad) (o : Option OwnDevice)
    → r.writes_device ≡ true
    → Settled (with_device r server s o).0 (with_device r server s o).1
unfolding with_device with_recorded Settled MadeIsTracked recorded
with_device-Settled r server s none h = tt
with_device-Settled r server s (some d) h =
    let start = record s { active_device = some d } in
    let kept = recorded r.writes_device d start in
    let up = brought_up r server d kept.0 r.starts_tunnel in
    (
      Tracked-append up.0 (creates d ∷ kept.1) up.1 d (
          brought_up-Tracked r server d kept.0 r.starts_tunnel
            (recorded-InFile r.writes_device d start h)),
      All-append (MadeIsTracked up.0 (creates d ∷ (kept.1 ++ up.1))) kept.1 up.1
          (All-NotMade-Settled up.0 (creates d ∷ (kept.1 ++ up.1)) kept.1
            (save_own_devices-NotMade r.writes_device _ start))
          (All-NotMade-Settled up.0 (creates d ∷ (kept.1 ++ up.1)) up.1
            (brought_up-NotMade r server d kept.0 r.starts_tunnel)),
    )

with_relay-Settled :
    (r : MullvadReplies) (s : Mullvad) (o : Option (RelayCountry × RelayCity × RelayServer))
    → r.writes_device ≡ true
    → Settled (with_relay r s o).0 (with_relay r s o).1
unfolding with_relay Settled
with_relay-Settled r s none h = tt
with_relay-Settled r s (some (country, city, server)) h = with_device-Settled r server s r.device h

remove_listed-NotMade :
    (removal : String → Bool) (listed own : List OwnDevice)
    → All NotMade (remove_listed removal listed own).0
unfolding remove_listed NotMade
remove_listed-NotMade removal listed [] = tt
remove_listed-NotMade removal listed (d ∷ own) =
    let rest = remove_listed-NotMade removal listed own in
    elim (Bool-cases (any (is_same d) listed)) [
      | inr n ↦ rw n rest
      | inl y ↦ elim (Bool-cases (removal d.id)) [
        | inl t ↦ rw (y, t) (tt, rest)
        | inr t ↦ rw (y, t) (tt, rest)
      ]
    ]

with_listed-NotMade :
    (r : MullvadReplies) (s : Mullvad) (own : List OwnDevice) (o : Option (List OwnDevice))
    → All NotMade (with_listed r s own o).1
unfolding with_listed remaining_saved
with_listed-NotMade r s own none = tt
with_listed-NotMade r s own (some listed) =
    All-append NotMade (remove_listed r.removal listed own).0 _
      (remove_listed-NotMade r.removal listed own)
      (save_own_devices-NotMade r.writes_remaining (remove_listed r.removal listed own).1 s)

stale_of-NotMade :
    (r : MullvadReplies) (s : Mullvad) (own : List OwnDevice) → All NotMade (stale_of r s own).1
unfolding stale_of
stale_of-NotMade r s [] = tt
stale_of-NotMade r s (d ∷ own) = with_listed-NotMade r s (d ∷ own) r.listed

after_stale-Settled :
    (r : MullvadReplies) (config : Config) (t : Mullvad × List MullvadEffect × Bool)
    → r.writes_device ≡ true
    → All NotMade t.1
    → Settled (after_stale r config t).0 (after_stale r config t).1
unfolding after_stale Settled
after_stale-Settled r config (s, fx, false) h n = All-NotMade-Settled s fx fx n
after_stale-Settled r config (s, fx, true) h n =
    Settled-append (with_relay r s (chosen_relay r config.location r.relays)).0 fx
      (with_relay r s (chosen_relay r config.location r.relays)).1 n
      (with_relay-Settled r s (chosen_relay r config.location r.relays) h)

set_up-Settled :
    (r : MullvadReplies) (config : Config) (s : Mullvad) (b : Bool)
    → r.writes_device ≡ true
    → Settled (set_up r config s b).0 (set_up r config s b).1
unfolding set_up remove_stale_own_devices Settled
set_up-Settled r config s false h = tt
set_up-Settled r config s true h =
    after_stale-Settled r config (remove_stale_own_devices r s) h
      (stale_of-NotMade r s (load_own_devices s))

-- However a set-up ends, with a file that can be written when the device is recorded: each device that it
-- registered stands in the file of own devices, or its removal succeeded.
pub setup_mullvad_tracked :
    (r : MullvadReplies) (config : Config) (s : Mullvad)
    → r.writes_device ≡ true
    → All
        (MadeIsTracked (setup_mullvad r config s).0 (setup_mullvad r config s).1)
        (setup_mullvad r config s).1
unfolding setup_mullvad Settled
setup_mullvad_tracked r config s h =
    set_up-Settled r config (record s { active_config = some config }) r.token h
