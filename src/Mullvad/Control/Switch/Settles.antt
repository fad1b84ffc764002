-- ===== src/Mullvad/Control/Switch/Settles.antt =====
-- How a switch of the country ends.
use ppvda.Base.{
  ◌≡◌, refl, sym, ◌∙◌, Bool, true, false, List, [], ◌∷◌, Option, none, some, String, if◌then◌else◌,
  inl, inr, ◌⊎◌,
}
use ppvda.Base.Text.{Text}
use ppvda.Mullvad.Relays.{RelayServer, RelayCity, RelayCountry}
use ppvda.Mullvad.Control.{
  OwnDevice, Config, Mullvad, MullvadEffect, stops, starts, MullvadReplies, chosen_relay,
}
use ppvda.Mullvad.Control.Switch.{
  Switched, with_location, after_start, after_stop, after_fetch, settle, switch_body,
  switch_mullvad_country, may_switch,
}

-- The account of what is configured.
pub account_of : Option Config → Option String
account_of none = none
account_of (some c) = c.account_number

-- The relay for the location was found.
pub record HasFound (r : MullvadReplies) (location : Text) : Type 0 where
  pub country : RelayCountry
  pub city : RelayCity
  pub server : RelayServer
  pub found : chosen_relay r location r.relays ≡ some (country, city, server)

-- A switch that succeeded: the tunnel was brought up to the relay that was found, and the location was
-- stored, in what `before` had configured.
pub record HasMoved (r : MullvadReplies) (location : Text) (before s : Mullvad)
    (fx : List MullvadEffect) (names : Text × Text) : Type 0 where
  pub relay : HasFound r location
  pub device : OwnDevice
  pub config : Config
  pub named : names ≡ (relay.country.name, relay.city.name)
  pub up : r.starts_tunnel ≡ true
  pub moved : fx ≡ stops ∷ starts relay.server device ∷ []
  pub stored : s.active_config ≡ some config
  pub located : config.location ≡ location
  pub kept : config.account_number ≡ account_of before.active_config

-- A switch that failed at the new tunnel.
pub record HasFallen (r : MullvadReplies) (location : Text) (before s : Mullvad)
    (fx : List MullvadEffect) : Type 0 where
  pub relay : HasFound r location
  pub device : OwnDevice
  pub down : r.starts_tunnel ≡ false
  pub tried : fx ≡ stops ∷ starts relay.server device ∷ []
  pub unchanged : s.active_config ≡ before.active_config

-- The end of a switch that began in `s`: by success, or by a failure that leaves the configuration to
-- the other requests, before the tunnel stops, behind that, or where the new one does not come up.
pub HasEnded :
    (stopping starting : Mullvad → Mullvad) → MullvadReplies → Text → Mullvad → Switched → Type 0
HasEnded stopping starting r location before (s, fx, some names) =
    HasMoved r location (starting (stopping before)) s fx names
HasEnded stopping starting r location before (s, fx, none) =
    ((fx ≡ []) × (s.active_config ≡ before.active_config))
    ⊎ ((HasFound r location
          × (fx ≡ stops ∷ [])
          × (s.active_config ≡ (stopping before).active_config))
        ⊎ HasFallen r location (starting (stopping before)) s fx)

-- A switch that may not begin changes nothing.
pub IsSwitch :
    (fetching stopping starting : Mullvad → Mullvad)
    → MullvadReplies
    → Text
    → Mullvad
    → Switched
    → Type 0
IsSwitch fetching stopping starting r location s t =
    ((may_switch s.active_config s.active_device s.switching ≡ false) × (t ≡ (s, [], none)))
    ⊎ ((may_switch s.active_config s.active_device s.switching ≡ true)
        × HasEnded stopping starting r location (fetching (record s { switching = true })) t)

with_location-location :
    (location : Text) (o : Option Config)
    → ((with_location location o).location ≡ location)
      × ((with_location location o).account_number ≡ account_of o)
unfolding with_location account_of
with_location-location location none = (refl, refl)
with_location-location location (some c) = (refl, refl)

module _ (stopping starting : Mullvad → Mullvad) (r : MullvadReplies) (location : Text) where
  after_start-HasEnded :
      (before : Mullvad) (country : RelayCountry) (city : RelayCity) (server : RelayServer)
      (d : OwnDevice) (b : Bool)
      → r.starts_tunnel ≡ b
      → chosen_relay r location r.relays ≡ some (country, city, server)
      → HasEnded stopping starting r location before
          (after_start (starting (stopping before)) location country city server d b)
  unfolding after_start HasEnded
  after_start-HasEnded before country city server d true q e =
      let config = with_location location (starting (stopping before)).active_config in
      let l = with_location-location location (starting (stopping before)).active_config in
      record {
        relay = record { country = country; city = city; server = server; found = e };
        device = d;
        config = config;
        named = refl;
        up = q;
        moved = refl;
        stored = refl;
        located = l.0;
        kept = l.1;
      }
  after_start-HasEnded before country city server d false q e = inr (
      inr (record {
        relay = record { country = country; city = city; server = server; found = e };
        device = d;
        down = q;
        tried = refl;
        unchanged = refl;
      }))

  after_stop-HasEnded :
      (found : RelayCountry × RelayCity × RelayServer) (before : Mullvad) (c : Option Config)
      (d : Option OwnDevice)
      → chosen_relay r location r.relays ≡ some found
      → HasEnded stopping starting r location before
          (after_stop starting r location found (stopping before) c d)
  unfolding after_stop HasEnded
  after_stop-HasEnded (country, city, server) before (some c) (some d) e =
      after_start-HasEnded before country city server d r.starts_tunnel refl e
  after_stop-HasEnded (country, city, server) before none d e =
      inr (inl (record { country = country; city = city; server = server; found = e }, refl, refl))
  after_stop-HasEnded (country, city, server) before (some c) none e =
      inr (inl (record { country = country; city = city; server = server; found = e }, refl, refl))

  after_fetch-HasEnded :
      (before : Mullvad) (c : Option Config) (o : Option (RelayCountry × RelayCity × RelayServer))
      → chosen_relay r location r.relays ≡ o
      → HasEnded stopping starting r location before
          (after_fetch stopping starting r location before c o)
  unfolding after_fetch HasEnded
  after_fetch-HasEnded before none none e = inl (refl, refl)
  after_fetch-HasEnded before (some c) none e = inl (refl, refl)
  after_fetch-HasEnded before none (some found) e = inl (refl, refl)
  after_fetch-HasEnded before (some c) (some found) e =
      after_stop-HasEnded found before (stopping before).active_config
        (stopping before).active_device e

  settle-HasEnded :
      (before : Mullvad) (t : Switched)
      → HasEnded stopping starting r location before t
      → HasEnded stopping starting r location before (settle t)
  unfolding settle HasEnded
  settle-HasEnded before (s, fx, none) (inl h) = inl h
  settle-HasEnded before (s, fx, none) (inr (inl h)) = inr (inl h)
  settle-HasEnded before (s, fx, none) (inr (inr h)) = inr (
      inr (record {
        relay = h.relay;
        device = h.device;
        down = h.down;
        tried = h.tried;
        unchanged = h.unchanged;
      }))
  settle-HasEnded before (s, fx, some names) h = record {
    relay = h.relay;
    device = h.device;
    config = h.config;
    named = h.named;
    up = h.up;
    moved = h.moved;
    stored = h.stored;
    located = h.located;
    kept = h.kept;
  }

settle_switching : (t : Switched) → (settle t).0.switching ≡ false
unfolding settle
settle_switching (s, fx, o) = refl

may_switch-false :
    (c : Option Config) (d : Option OwnDevice) (b : Bool) → may_switch c d b ≡ true → b ≡ false
unfolding may_switch
may_switch-false none d b h = cc
may_switch-false (some c) none b h = cc
may_switch-false (some c) (some d) false h = refl
may_switch-false (some c) (some d) true h = cc

-- The two branches, with the decision as an argument.
decided :
    (fetching stopping starting : Mullvad → Mullvad) (r : MullvadReplies) (location : Text)
    (s : Mullvad) (b : Bool)
    → may_switch s.active_config s.active_device s.switching ≡ b
    → let t : Switched =
        if b then settle (switch_body fetching stopping starting r location s) else (s, [], none) in
      (t.0.switching ≡ s.switching) × IsSwitch fetching stopping starting r location s t
unfolding switch_body IsSwitch
decided fetching stopping starting r location s false e = (refl, inl (e, refl))
decided fetching stopping starting r location s true e =
    let s' = fetching (record s { switching = true }) in
    (
      settle_switching (switch_body fetching stopping starting r location s)
          ∙ sym (may_switch-false s.active_config s.active_device s.switching e),
      inr (
        e,
        settle-HasEnded stopping starting r location s'
            (switch_body fetching stopping starting r location s)
            (after_fetch-HasEnded stopping starting r location s' s'.active_config
              (chosen_relay r location r.relays) refl),
      ),
    )

-- However a switch of the country ends, and whatever other requests do at its waits, the flag of a switch
-- in progress is as it was before. One that may not begin changes nothing. One that succeeds found the
-- relay for the location, stopped the tunnel and brought it up to that relay, and stored the
-- location with the account that was configured then. One that fails has stored nothing: what is
-- configured is what the other requests left, the tunnel was left alone or a relay had been found,
-- and where the new tunnel was tried it did not come up.
pub switch_mullvad_country_settles :
    (fetching stopping starting : Mullvad → Mullvad) (r : MullvadReplies) (location : Text)
    (s : Mullvad)
    → ((switch_mullvad_country fetching stopping starting r location s).0.switching ≡ s.switching)
      × IsSwitch fetching stopping starting r location s
          (switch_mullvad_country fetching stopping starting r location s)
unfolding switch_mullvad_country
switch_mullvad_country_settles fetching stopping starting r location s =
    decided fetching stopping starting r location s
      (may_switch s.active_config s.active_device s.switching) refl
