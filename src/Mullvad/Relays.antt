-- ===== src/Mullvad/Relays.antt =====
-- `getRelayList`, `findRelay` and `pickWeightedRelay` of src/mullvad/api.ts on the JSON that the API sends.
-- `data.locations` is an association list, codes are code units, latitudes, longitudes and the
-- fields that nothing reads are left out. `Math.random()` is a numerator below 2 ^ 53, over that denominator; the rounding of the
-- products is left out.
pub mod Sound
mod Tests
use ppvda.Base.{
  ◌==◌, ℕ, ◌+◌, ◌-◌, ◌*◌, ◌^◌, Bool, true, false, List, [], ◌∷◌, ◌++◌, Option, none, some, leb,
  length, if◌then◌else◌,
}
use ppvda.Base.Sort.{sort_by}
use ppvda.Base.Text.{Text, equal, lower}

pub record RelayJson : Type 0 where
  pub hostname : Text
  pub location : Text
  pub active : Bool
  pub weight : ℕ
  pub ipv4_addr_in : Text
  pub public_key : Text

pub record LocationJson : Type 0 where
  pub country : Text
  pub city : Text

pub record RelayServer : Type 0 where
  pub hostname : Text
  pub public_key : Text
  pub ipv4_addr_in : Text
  pub weight : ℕ
  pub active : Bool

pub record RelayCity : Type 0 where
  pub name : Text
  pub code : Text
  pub relays : List RelayServer

pub record RelayCountry : Type 0 where
  pub name : Text
  pub code : Text
  pub cities : List RelayCity

pub find_location : Text → List (Text × LocationJson) → Option LocationJson
find_location code [] = none
find_location code ((k, l) ∷ ls) =
    let rest = find_location code ls in if equal k code then some l else rest

-- What stands before the first dash, and behind it where there is one.
pub before_dash : Text → Text
before_dash [] = []
before_dash (c ∷ t) = let rest = before_dash t in if c == b'-' then [] else c ∷ rest

pub after_dash : Text → Option Text
after_dash [] = none
after_dash (c ∷ t) = let rest = after_dash t in if c == b'-' then some t else rest

pub server_of : RelayJson → RelayServer
server_of r = record {
  hostname = r.hostname;
  public_key = r.public_key;
  ipv4_addr_in = r.ipv4_addr_in;
  weight = r.weight;
  active = r.active;
}

pub add_to_cities : Text → Text → RelayServer → List RelayCity → List RelayCity
add_to_cities name code s [] = record { name = name; code = code; relays = s ∷ [] } ∷ []
add_to_cities name code s (c ∷ cs) =
    let rest = add_to_cities name code s cs in
    if equal c.code code then record c { relays = c.relays ++ s ∷ [] } ∷ cs else c ∷ rest

pub add_to_countries : LocationJson → Text → RelayServer → List RelayCountry → List RelayCountry
unfolding add_to_cities before_dash
add_to_countries l code s [] =
    record { name = l.country; code = before_dash code; cities = add_to_cities l.city code s [] }
    ∷ []
add_to_countries l code s (c ∷ cs) =
    let rest = add_to_countries l code s cs in
    if equal c.code (before_dash code)
    then record c { cities = add_to_cities l.city code s c.cities } ∷ cs
    else c ∷ rest

pub add_located : RelayJson → List RelayCountry → Option LocationJson → List RelayCountry
unfolding add_to_countries server_of
add_located r cs none = cs
add_located r cs (some l) = add_to_countries l r.location (server_of r) cs

-- `if (!relay.active) continue`
add_active : List (Text × LocationJson) → RelayJson → List RelayCountry → Bool → List RelayCountry
unfolding add_located find_location
add_active locations r cs false = cs
add_active locations r cs true = add_located r cs (find_location r.location locations)

pub add_relay : List (Text × LocationJson) → RelayJson → List RelayCountry → List RelayCountry
unfolding add_active
add_relay locations r cs = add_active locations r cs r.active

-- The loop of `getRelayList`, with the countries so far.
pub group_relays :
    List (Text × LocationJson) → List RelayJson → List RelayCountry → List RelayCountry
unfolding add_relay
group_relays locations [] cs = cs
group_relays locations (r ∷ rs) cs = group_relays locations rs (add_relay locations r cs)

pub find_country : Text → List RelayCountry → Option RelayCountry
find_country code [] = none
find_country code (c ∷ cs) =
    let rest = find_country code cs in if equal c.code code then some c else rest

pub find_city : Text → List RelayCity → Option RelayCity
find_city code [] = none
find_city code (c ∷ cs) = let rest = find_city code cs in if equal c.code code then some c else rest

-- The order of `b.relays.length - a.relays.length`.
pub larger : RelayCity → RelayCity → Bool
larger a b = leb (length b.relays) (length a.relays)

first_city : List RelayCity → Option RelayCity
first_city [] = none
first_city (c ∷ cs) = some c

-- The loop, with what is left of the random number: the numerator times the total weight.
pub pick_from : ℕ → List RelayServer → Option RelayServer
pick_from random [] = none
pick_from random (r ∷ rs) =
    let rest = pick_from (random - r.weight * 2 ^ 53) rs in
    if leb random (r.weight * 2 ^ 53) then some r else rest

pub last_relay : List RelayServer → Option RelayServer
last_relay [] = none
last_relay (r ∷ []) = some r
last_relay (r ∷ s ∷ rs) = last_relay (s ∷ rs)

pub total_weight : List RelayServer → ℕ
total_weight [] = 0
total_weight (r ∷ rs) = r.weight + total_weight rs

pub pick_weighted_relay : ℕ → List RelayServer → Option RelayServer
unfolding pick_from last_relay total_weight
pick_weighted_relay random relays = elim (pick_from (random * total_weight relays) relays) [
  | some r ↦ some r
  | none ↦ last_relay relays
]

-- The city of `findRelay`: an empty code behind the dash counts as none.
chosen_city : RelayCountry → Text → Option Text → Option RelayCity
unfolding larger first_city find_city
chosen_city country code none = first_city (sort_by larger country.cities)
chosen_city country code (some []) = first_city (sort_by larger country.cities)
chosen_city country code (some (c ∷ city)) = find_city (code ++ (b'-' ∷ c ∷ city)) country.cities

with_city : ℕ → RelayCountry → Option RelayCity → Option (RelayCountry × RelayCity × RelayServer)
unfolding pick_weighted_relay
with_city random country none = none
with_city random country (some city) = elim (pick_weighted_relay random city.relays) [
  | none ↦ none
  | some server ↦ some (country, city, server)
]

with_country : ℕ → Text → Option RelayCountry → Option (RelayCountry × RelayCity × RelayServer)
unfolding with_city chosen_city
with_country random location none = none
with_country random location (some country) =
    with_city random country (chosen_city country (before_dash location) (after_dash location))

-- A country or city that is not there is an exception, which is no result here.
unfoldable pub find_relay :
    ℕ → List RelayCountry → Text → Option (RelayCountry × RelayCity × RelayServer)
unfolding with_country find_country before_dash after_dash
find_relay random relays location =
    with_country random (lower location) (find_country (before_dash (lower location)) relays)
