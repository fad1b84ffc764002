-- ===== src/Mullvad/Control/Own.antt =====
-- A set-up removes only devices of this instance.
use mathlib.Core.List.{Memᴰ}
use ppvda.Base.{
  ◌≡◌, refl, Bool, true, false, List, [], ◌∷◌, Option, none, some, any, All, All-append, All-map,
  Bool-cases, inl, inr, ◌⊎◌,
}
use ppvda.Mullvad.Relays.{RelayServer, RelayCity, RelayCountry}
use ppvda.Mullvad.Control.{
  OwnDevice, Config, Mullvad, MullvadEffect, removes, MullvadReplies, load_own_devices,
  save_own_devices, without_id, is_same, remove_listed, remaining_saved, with_listed, stale_of,
  remove_stale_own_devices, forget, removal_tried, deregister_with, deregister_device, recorded,
  brought_up, with_recorded, with_device, chosen_relay, with_relay, after_stale, set_up,
  setup_mullvad,
}

-- A device of the file that the account still lists with its key, or the one that was just made.
pub IsOwn : MullvadReplies → List OwnDevice → OwnDevice → Type 0
IsOwn r own d =
    (Memᴰ d own
      × (listed : List OwnDevice) × (r.listed ≡ some listed)
      × (any (is_same d) listed ≡ true))
    ⊎ (r.device ≡ some d)

pub RemovesOwn : MullvadReplies → List OwnDevice → MullvadEffect → Type 0
RemovesOwn r own (removes id ok) = (d : OwnDevice) × (d.id ≡ id) × IsOwn r own d
RemovesOwn r own _ = Unit {0}

module _ (r : MullvadReplies) (all : List OwnDevice) where
  save_own_devices-RemovesOwn :
      (ok : Bool) (ds : List OwnDevice) (s : Mullvad)
      → All (RemovesOwn r all) (save_own_devices ok ds s).1
  unfolding save_own_devices RemovesOwn
  save_own_devices-RemovesOwn true ds s = (tt, tt)
  save_own_devices-RemovesOwn false ds s = tt

  remove_listed-RemovesOwn :
      (listed own : List OwnDevice)
      → r.listed ≡ some listed
      → All (λ d. Memᴰ d all) own
      → All (RemovesOwn r all) (remove_listed r.removal listed own).0
  unfolding remove_listed RemovesOwn IsOwn
  remove_listed-RemovesOwn listed [] e m = tt
  remove_listed-RemovesOwn listed (d ∷ own) e m =
      let rest = remove_listed-RemovesOwn listed own e m.1 in
      elim (Bool-cases (any (is_same d) listed)) [
        | inr n ↦ rw n rest
        | inl y ↦ elim (Bool-cases (r.removal d.id)) [
          | inl t ↦ rw (y, t) ((d, refl, inl (m.0, listed, e, y)), rest)
          | inr t ↦ rw (y, t) ((d, refl, inl (m.0, listed, e, y)), rest)
        ]
      ]

  with_listed-RemovesOwn :
      (s : Mullvad) (own : List OwnDevice) (o : Option (List OwnDevice))
      → r.listed ≡ o
      → All (λ d. Memᴰ d all) own
      → All (RemovesOwn r all) (with_listed r s own o).1
  unfolding with_listed remaining_saved
  with_listed-RemovesOwn s own none e m = tt
  with_listed-RemovesOwn s own (some listed) e m =
      All-append (RemovesOwn r all) (remove_listed r.removal listed own).0 _
        (remove_listed-RemovesOwn listed own e m)
        (save_own_devices-RemovesOwn r.writes_remaining (remove_listed r.removal listed own).1 s)

  stale_of-RemovesOwn :
      (s : Mullvad) (own : List OwnDevice)
      → All (λ d. Memᴰ d all) own
      → All (RemovesOwn r all) (stale_of r s own).1
  unfolding stale_of
  stale_of-RemovesOwn s [] m = tt
  stale_of-RemovesOwn s (d ∷ own) m = with_listed-RemovesOwn s (d ∷ own) r.listed refl m

  removal_tried-RemovesOwn :
      (w b : Bool) (d : OwnDevice) (s : Mullvad)
      → r.device ≡ some d
      → All (RemovesOwn r all) (removal_tried w b d.id s).1
  unfolding removal_tried forget RemovesOwn IsOwn
  removal_tried-RemovesOwn w false d s e = ((d, refl, inr e), tt)
  removal_tried-RemovesOwn w true d s e =
      ((d, refl, inr e), save_own_devices-RemovesOwn w (without_id d.id (load_own_devices s)) s)

  deregister_with-RemovesOwn :
      (d : OwnDevice) (s : Mullvad) (b : Bool)
      → r.device ≡ some d
      → All (RemovesOwn r all) (deregister_with r d s b).1
  unfolding deregister_with
  deregister_with-RemovesOwn d s true e =
      removal_tried-RemovesOwn r.writes_forgotten r.removes_device d s e
  deregister_with-RemovesOwn d s false e = tt

  brought_up-RemovesOwn :
      (server : RelayServer) (d : OwnDevice) (s : Mullvad) (b : Bool)
      → r.device ≡ some d
      → All (RemovesOwn r all) (brought_up r server d s b).1
  unfolding brought_up deregister_device RemovesOwn
  brought_up-RemovesOwn server d s true e = (tt, (tt, tt))
  brought_up-RemovesOwn server d s false e =
      (tt, (tt, deregister_with-RemovesOwn d s r.token_again e))

  with_device-RemovesOwn :
      (server : RelayServer) (s : Mullvad) (o : Option OwnDevice)
      → r.device ≡ o
      → All (RemovesOwn r all) (with_device r server s o).1
  unfolding with_device with_recorded recorded RemovesOwn
  with_device-RemovesOwn server s none e = tt
  with_device-RemovesOwn server s (some d) e =
      let start = record s { active_device = some d } in
      let kept = recorded r.writes_device d start in
      (
        tt,
        All-append (RemovesOwn r all) kept.1 (brought_up r server d kept.0 r.starts_tunnel).1
            (save_own_devices-RemovesOwn r.writes_device _ start)
            (brought_up-RemovesOwn server d kept.0 r.starts_tunnel e),
      )

  with_relay-RemovesOwn :
      (s : Mullvad) (o : Option (RelayCountry × RelayCity × RelayServer))
      → All (RemovesOwn r all) (with_relay r s o).1
  unfolding with_relay
  with_relay-RemovesOwn s none = tt
  with_relay-RemovesOwn s (some (country, city, server)) =
      with_device-RemovesOwn server s r.device refl

  after_stale-RemovesOwn :
      (config : Config) (t : Mullvad × List MullvadEffect × Bool)
      → All (RemovesOwn r all) t.1
      → All (RemovesOwn r all) (after_stale r config t).1
  unfolding after_stale
  after_stale-RemovesOwn config (s, fx, false) h = h
  after_stale-RemovesOwn config (s, fx, true) h =
      All-append (RemovesOwn r all) fx _ h
        (with_relay-RemovesOwn s (chosen_relay r config.location r.relays))

-- Every device is in the list.
All-Memᴰ_own : (ds : List OwnDevice) → All (λ d. Memᴰ d ds) ds
All-Memᴰ_own [] = tt
All-Memᴰ_own (d ∷ ds) = (
  Memᴰ.head refl,
  All-map (λ x. Memᴰ x ds) (λ x. Memᴰ x (d ∷ ds)) ds (λ x m. Memᴰ.tail m) (All-Memᴰ_own ds),
)

set_up-RemovesOwn :
    (r : MullvadReplies) (config : Config) (s : Mullvad) (b : Bool)
    → All (RemovesOwn r (load_own_devices s)) (set_up r config s b).1
unfolding set_up remove_stale_own_devices
set_up-RemovesOwn r config s false = tt
set_up-RemovesOwn r config s true =
    after_stale-RemovesOwn r (load_own_devices s) config (remove_stale_own_devices r s) (
      stale_of-RemovesOwn r (load_own_devices s) s (load_own_devices s)
        (All-Memᴰ_own (load_own_devices s)))

-- However a set-up ends, each device whose removal it asks for is one of the file of own devices that
-- the account still lists with the same public key, or the one that it has just registered.
pub setup_mullvad-RemovesOwn :
    (r : MullvadReplies) (config : Config) (s : Mullvad)
    → All (RemovesOwn r (load_own_devices s)) (setup_mullvad r config s).1
unfolding setup_mullvad load_own_devices
setup_mullvad-RemovesOwn r config s =
    set_up-RemovesOwn r config (record s { active_config = some config }) r.token
