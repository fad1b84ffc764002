-- ===== src/Mullvad/Relays/Sound.antt =====
-- The relay that is chosen is an active one of the list, at the place that was asked for.
use mathlib.Core.List.{Memᴰ}
use ppvda.Base.{
  ℕ, ◌*◌, ◌-◌, ◌^◌, ◌≡◌, refl, ◌∙◌, sym, ap, subst, Bool, true, false, List, [], ◌∷◌, ◌++◌, Option,
  none, some, leb, arith, All, All-append, All-map, Bool-cases, Option-cases, inl, inr,
}
use ppvda.Base.Sort.{sort_by, sort_by-All}
use ppvda.Base.Text.{Text, equal, equal_iff, lower}
use ppvda.Mullvad.Relays.{
  RelayJson, LocationJson, RelayServer, RelayCity, RelayCountry, find_location, before_dash,
  after_dash, server_of, add_to_cities, add_to_countries, add_located, add_active, add_relay,
  group_relays, find_country, find_city, larger, first_city, pick_from, last_relay,
  pick_weighted_relay, total_weight, chosen_city, with_city, with_country, find_relay,
}

-- A server is that of an active relay with a property, at a place.
pub IsFrom : (RelayJson → Type 0) → Text → RelayServer → Type 0
IsFrom P code s =
    (j : RelayJson) × P j × (j.active ≡ true) × (j.location ≡ code) × (s ≡ server_of j)

pub IsCity : (RelayJson → Type 0) → Text → RelayCity → Type 0
IsCity P country c = All (IsFrom P c.code) c.relays × (before_dash c.code ≡ country)

pub IsCountry : (RelayJson → Type 0) → RelayCountry → Type 0
IsCountry P c = All (IsCity P c.code) c.cities

module _ (P : RelayJson → Type 0) where
  add_to_cities-IsCity :
      (name : Text) (r : RelayJson) (cs : List RelayCity)
      → P r
      → r.active ≡ true
      → All (IsCity P (before_dash r.location)) cs
      → All (IsCity P (before_dash r.location)) (add_to_cities name r.location (server_of r) cs)
  unfolding add_to_cities IsCity IsFrom
  add_to_cities-IsCity name r [] p a h = ((((r, p, a, refl, refl), tt), refl), tt)
  add_to_cities-IsCity name r (c ∷ cs) p a h = elim (Bool-cases (equal c.code r.location)) [
    | inl e ↦ rw e (
      (
        All-append (IsFrom P c.code) c.relays (server_of r ∷ []) h.0.0
            ((r, p, a, sym ((equal_iff c.code r.location).0 e), refl), tt),
        h.0.1,
      ),
      h.1,
    )
    | inr n ↦ rw n (h.0, add_to_cities-IsCity name r cs p a h.1)
  ]

  add_to_countries-IsCountry :
      (l : LocationJson) (r : RelayJson) (cs : List RelayCountry)
      → P r
      → r.active ≡ true
      → All (IsCountry P) cs
      → All (IsCountry P) (add_to_countries l r.location (server_of r) cs)
  unfolding add_to_countries IsCountry
  add_to_countries-IsCountry l r [] p a h = (add_to_cities-IsCity l.city r [] p a tt, tt)
  add_to_countries-IsCountry l r (c ∷ cs) p a h =
      elim (Bool-cases (equal c.code (before_dash r.location))) [
        | inl e ↦
            let same = (equal_iff c.code (before_dash r.location)).0 e in
            rw e (
              subst (λ x. All (IsCity P x) (add_to_cities l.city r.location (server_of r) c.cities))
                  (sym same)
                  (add_to_cities-IsCity l.city r c.cities p a
                    (subst (λ x. All (IsCity P x) c.cities) same h.0)),
              h.1,
            )
        | inr n ↦ rw n (h.0, add_to_countries-IsCountry l r cs p a h.1)
      ]

  add_located-IsCountry :
      (r : RelayJson) (cs : List RelayCountry) (o : Option LocationJson)
      → P r
      → r.active ≡ true
      → All (IsCountry P) cs
      → All (IsCountry P) (add_located r cs o)
  unfolding add_located
  add_located-IsCountry r cs none p a h = h
  add_located-IsCountry r cs (some l) p a h = add_to_countries-IsCountry l r cs p a h

  add_active-IsCountry :
      (locations : List (Text × LocationJson)) (r : RelayJson) (cs : List RelayCountry) (b : Bool)
      → r.active ≡ b
      → P r
      → All (IsCountry P) cs
      → All (IsCountry P) (add_active locations r cs b)
  unfolding add_active
  add_active-IsCountry locations r cs false a p h = h
  add_active-IsCountry locations r cs true a p h =
      add_located-IsCountry r cs (find_location r.location locations) p a h

  group_relays-IsCountry :
      (locations : List (Text × LocationJson)) (rs : List RelayJson) (cs : List RelayCountry)
      → All P rs
      → All (IsCountry P) cs
      → All (IsCountry P) (group_relays locations rs cs)
  unfolding group_relays add_relay
  group_relays-IsCountry locations [] cs p h = h
  group_relays-IsCountry locations (r ∷ rs) cs p h =
      group_relays-IsCountry locations rs (add_relay locations r cs) p.1
        (add_active-IsCountry locations r cs r.active refl p.0 h)

-- Whatever holds of all entries holds of the one that a search gives.
find_country_sound :
    (P : RelayCountry → Type 0) (code : Text) (cs : List RelayCountry) (c : RelayCountry)
    → All P cs
    → find_country code cs ≡ some c
    → P c × (c.code ≡ code)
unfolding find_country
find_country_sound P code [] c p h = cc
find_country_sound P code (d ∷ cs) c p h = elim (Bool-cases (equal d.code code)) [
  | inl e ↦
      let same : d ≡ c = ground (arith, h, e) in
      (subst P same p.0, sym (ap (λ x. x.code) same) ∙ (equal_iff d.code code).0 e)
  | inr n ↦ find_country_sound P code cs c p.1 (ground (arith, h, n))
]

find_city_sound :
    (P : RelayCity → Type 0) (code : Text) (cs : List RelayCity) (c : RelayCity)
    → All P cs
    → find_city code cs ≡ some c
    → P c × (c.code ≡ code)
unfolding find_city
find_city_sound P code [] c p h = cc
find_city_sound P code (d ∷ cs) c p h = elim (Bool-cases (equal d.code code)) [
  | inl e ↦
      let same : d ≡ c = ground (arith, h, e) in
      (subst P same p.0, sym (ap (λ x. x.code) same) ∙ (equal_iff d.code code).0 e)
  | inr n ↦ find_city_sound P code cs c p.1 (ground (arith, h, n))
]

first_city_sound :
    (P : RelayCity → Type 0) (cs : List RelayCity) (c : RelayCity)
    → All P cs
    → first_city cs ≡ some c
    → P c
unfolding first_city
first_city_sound P [] c p h = cc
first_city_sound P (d ∷ cs) c p h = let same : d ≡ c = cc in subst P same p.0

module _ (P : RelayServer → Type 0) where
  pick_from_sound :
      (random : ℕ) (rs : List RelayServer) (r : RelayServer)
      → All P rs
      → pick_from random rs ≡ some r
      → P r
  unfolding pick_from
  pick_from_sound random [] r p h = cc
  pick_from_sound random (s ∷ rs) r p h = elim (Bool-cases (leb random (s.weight * 2 ^ 53))) [
    | inl e ↦ let same : s ≡ r = ground (arith, h, e) in subst P same p.0
    | inr n ↦ pick_from_sound (random - s.weight * 2 ^ 53) rs r p.1 (ground (arith, h, n))
  ]

  last_relay_sound :
      (rs : List RelayServer) (r : RelayServer) → All P rs → last_relay rs ≡ some r → P r
  unfolding last_relay
  last_relay_sound [] r p h = cc
  last_relay_sound (s ∷ []) r p h = let same : s ≡ r = cc in subst P same p.0
  last_relay_sound (s ∷ t ∷ rs) r p h = last_relay_sound (t ∷ rs) r p.1 h

  pick_weighted_relay_sound :
      (random : ℕ) (rs : List RelayServer) (r : RelayServer)
      → All P rs
      → pick_weighted_relay random rs ≡ some r
      → P r
  unfolding pick_weighted_relay
  pick_weighted_relay_sound random rs r p h =
      elim (Option-cases (pick_from (random * total_weight rs) rs)) [
        | inl e ↦ last_relay_sound rs r p (ground (arith, h, e))
        | inr (s, e) ↦
            let same : s ≡ r = ground (arith, h, e) in
            subst P same (pick_from_sound (random * total_weight rs) rs s p e)
      ]

-- Every entry of a list is in it.
All-Memᴰ : (rs : List RelayJson) → All (λ j. Memᴰ j rs) rs
All-Memᴰ [] = tt
All-Memᴰ (r ∷ rs) = (
  Memᴰ.head refl,
  All-map (λ j. Memᴰ j rs) (λ j. Memᴰ j (r ∷ rs)) rs (λ j m. Memᴰ.tail m) (All-Memᴰ rs),
)

-- The city is the one behind the dash, where a code stands there.
pub CityMatches : Text → Option Text → Text → Type 0
CityMatches country none code = Unit {0}
CityMatches country (some []) code = Unit {0}
CityMatches country (some (c ∷ city)) code = code ≡ country ++ (b'-' ∷ c ∷ city)

module _ (P : RelayJson → Type 0) where
  chosen_city_sound :
      (country : RelayCountry) (code : Text) (o : Option Text) (city : RelayCity)
      → IsCountry P country
      → chosen_city country code o ≡ some city
      → IsCity P country.code city × CityMatches code o city.code
  unfolding chosen_city CityMatches IsCountry
  chosen_city_sound country code none city h e = (
    first_city_sound (IsCity P country.code) (sort_by larger country.cities) city
        (sort_by-All larger (IsCity P country.code) country.cities h) e,
    tt,
  )
  chosen_city_sound country code (some []) city h e = (
    first_city_sound (IsCity P country.code) (sort_by larger country.cities) city
        (sort_by-All larger (IsCity P country.code) country.cities h) e,
    tt,
  )
  chosen_city_sound country code (some (c ∷ t)) city h e =
      find_city_sound (IsCity P country.code) (code ++ (b'-' ∷ c ∷ t)) country.cities city h e

  with_city_sound :
      (random : ℕ) (country : RelayCountry) (code : Text) (o : Option Text) (m : Option RelayCity)
      (a : RelayCountry) (b : RelayCity) (s : RelayServer)
      → IsCountry P country
      → chosen_city country code o ≡ m
      → with_city random country m ≡ some (a, b, s)
      → IsFrom P b.code s
        × (before_dash b.code ≡ a.code)
        × CityMatches code o b.code
        × (a ≡ country)
  unfolding with_city IsCity
  with_city_sound random country code o none a b s h e q = cc
  with_city_sound random country code o (some city) a b s h e q =
      let (inside, matching) = chosen_city_sound country code o city h e in
      elim (Option-cases (pick_weighted_relay random city.relays)) [
        | inl n ↦ absurd (ground (arith, q, n))
        | inr (r, n) ↦
            let is_country : a ≡ country = ground (arith, q, n) in
            let is_city : city ≡ b = ground (arith, q, n) in
            let is_server : r ≡ s = ground (arith, q, n) in
            let picked =
              pick_weighted_relay_sound (IsFrom P city.code) random city.relays r inside.0 n in
            (
              subst (λ x. IsFrom P x.code s) is_city (subst (IsFrom P city.code) is_server picked),
              sym (ap (λ x. before_dash x.code) is_city)
                  ∙ inside.1
                  ∙ sym (ap (λ x. x.code) is_country),
              subst (λ x. CityMatches code o x.code) is_city matching,
              is_country,
            )
      ]

-- The relay that `findRelay` chooses from the grouped list of the API is that of an active relay of the
-- list in the chosen city, the city lies in the chosen country, and these are the country that was
-- asked for and, where a city was asked for, that city.
pub find_relay_sound :
    (random : ℕ) (locations : List (Text × LocationJson)) (data_relays : List RelayJson)
    (location : Text) (country : RelayCountry) (city : RelayCity) (server : RelayServer)
    → find_relay random (group_relays locations data_relays []) location
      ≡ some (country, city, server)
    → IsFrom (λ j. Memᴰ j data_relays) city.code server
      × (before_dash city.code ≡ country.code)
      × (country.code ≡ before_dash (lower location))
      × CityMatches (before_dash (lower location)) (after_dash (lower location)) city.code
unfolding find_relay with_country
find_relay_sound random locations data_relays location country city server h =
    let grouped =
      group_relays-IsCountry (λ j. Memᴰ j data_relays) locations data_relays []
        (All-Memᴰ data_relays) tt in
    elim (Option-cases
      (find_country (before_dash (lower location)) (group_relays locations data_relays []))) [
        | inl n ↦ absurd (ground (arith, h, n))
        | inr (c, n) ↦
            let (inside, named) =
              find_country_sound (IsCountry (λ j. Memᴰ j data_relays))
                (before_dash (lower location)) (group_relays locations data_relays []) c grouped
                n in
            let (from, within, matching, same) =
              with_city_sound (λ j. Memᴰ j data_relays) random c (before_dash (lower location))
                (after_dash (lower location)) _ country city server inside refl (rw n at h) in
            (from, within, ap (λ x. x.code) same ∙ named, matching)
      ]
