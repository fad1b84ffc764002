-- ===== src/Mullvad/Relays/Tests.antt =====
-- A list of three relays, and the theorem about the choice at a concrete input.
use mathlib.Core.List.{Memᴰ}
use ppvda.Base.{String, ◌^◌, ℕ, ◌≡◌, refl, Bool, true, false, List, [], ◌∷◌, some}
use ppvda.Base.Text.{Text, codes, lower}
use ppvda.Mullvad.Relays.{
  RelayJson, LocationJson, RelayCity, RelayCountry, group_relays, find_relay, server_of,
  before_dash, after_dash,
}
use ppvda.Mullvad.Relays.Sound.{IsFrom, CityMatches, find_relay_sound}

abbrev relay : String → String → Bool → ℕ → RelayJson
relay name place active weight = record {
  hostname = codes name;
  location = codes place;
  active = active;
  weight = weight;
  ipv4_addr_in = codes "8.8.8.8";
  public_key = codes name;
}

abbrev listed : List RelayJson
listed =
    relay "se1" "se-mma" true 100
    ∷ relay "se2" "se-sto" false 900
    ∷ relay "se3" "se-mma" true 300
    ∷ relay "de1" "de-ber" true 100
    ∷ []

abbrev places : List (Text × LocationJson)
places =
    (codes "se-mma", record { country = codes "Sweden"; city = codes "Malmo" })
    ∷ (codes "se-sto", record { country = codes "Sweden"; city = codes "Stockholm" })
    ∷ (codes "de-ber", record { country = codes "Germany"; city = codes "Berlin" })
    ∷ []

abbrev malmo : RelayCity
malmo = record {
  name = codes "Malmo";
  code = codes "se-mma";
  relays =
      server_of (relay "se1" "se-mma" true 100) ∷ server_of (relay "se3" "se-mma" true 300) ∷ [];
}

abbrev sweden : RelayCountry
sweden = record { name = codes "Sweden"; code = codes "se"; cities = malmo ∷ [] }

-- Half of the way through the weights is behind the first relay.
half_way :
    find_relay (2 ^ 52) (group_relays places listed []) (codes "SE-mma")
    ≡ some (sweden, malmo, server_of (relay "se3" "se-mma" true 300))
unfolding find_relay group_relays server_of
half_way = refl

find_relay_sound_example :
    IsFrom (λ j. Memᴰ j listed) (codes "se-mma") (server_of (relay "se3" "se-mma" true 300))
    × (before_dash (codes "se-mma") ≡ codes "se")
    × (codes "se" ≡ before_dash (lower (codes "SE-mma")))
    × CityMatches
        (before_dash (lower (codes "SE-mma")))
        (after_dash (lower (codes "SE-mma")))
        (codes "se-mma")
find_relay_sound_example =
    find_relay_sound (2 ^ 52) places listed (codes "SE-mma") sweden malmo
      (server_of (relay "se3" "se-mma" true 300)) half_way
