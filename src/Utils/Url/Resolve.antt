-- ===== src/Utils/Url/Resolve.antt =====
-- What an accepted host is known to be, and what an accepted URL.
use ppvda.Base.{
  Bool, Bool-cases, Option-cases, inl, inr, true, ◌≢◌, ◌⊎◌, All, Option, any, ◌≡◌, refl, false,
  List, [], ◌∷◌, arith, none, some,
}
use ppvda.Base.Text.{Text}
use ppvda.Utils.Ranges.{Address, is_private_ip}
use ppvda.Utils.Url.{
  check_answer, recheck, confirm, resolve_twice, first_answer, is_confirmed_private_url,
  is_private_url, some_private, ResolvedHost, safe_resolve_host, accept, is_blocked_host_literal,
  strip_brackets, has_ip, is_refused,
}

module _ (parse_ip : Text → Option Address) where
  -- A row of a DNS answer that may be used: public, and not routed around the tunnel.
  abbrev pub IsUsable : List Text → ResolvedHost → Type 0
  IsUsable bypass r = (is_private_ip parse_ip r.address ≡ false) × (has_ip bypass r.address ≡ false)

  none-IsUsable :
      (bypass : List Text) (rs : List ResolvedHost)
      → any (is_refused parse_ip bypass) rs ≡ false
      → All (IsUsable bypass) rs
  none-IsUsable bypass [] h = tt
  none-IsUsable bypass (r ∷ rs) h =
      ((ground arith, ground arith), none-IsUsable bypass rs (ground arith))

  -- What `safeResolveHost` promises of the address that it returns.
  pub record IsPinned (bypass : List Text) (hostname : Text) (rs : List ResolvedHost)
      (host : ResolvedHost) : Type 0 where
    pub literal_passes : is_blocked_host_literal parse_ip hostname ≡ false
    pub not_bypass : has_ip bypass (strip_brackets hostname) ≡ false
    pub usable : All (IsUsable bypass) rs
    pub first :
        (r : ResolvedHost) × (more : List ResolvedHost) × (rs ≡ r ∷ more)
        × (host.address ≡ r.address)
    pub public : is_private_ip parse_ip host.address ≡ false
    pub through_tunnel : has_ip bypass host.address ≡ false

  accept-IsPinned :
      (bypass : List Text) (hostname : Text) (answer : Option (List ResolvedHost))
      (host : ResolvedHost)
      → is_blocked_host_literal parse_ip hostname ≡ false
      → has_ip bypass (strip_brackets hostname) ≡ false
      → accept parse_ip bypass answer ≡ some host
      → (rs : List ResolvedHost) × (answer ≡ some rs) × IsPinned bypass hostname rs host
  unfolding accept
  accept-IsPinned bypass hostname none host l b h = cc
  accept-IsPinned bypass hostname (some []) host l b h = cc
  accept-IsPinned bypass hostname (some (r ∷ rs)) host l b h =
      let fine : any (is_refused parse_ip bypass) (r ∷ rs) ≡ false = ground arith in
      (
        r ∷ rs,
        refl,
        record {
          literal_passes = l;
          not_bypass = b;
          usable = none-IsUsable bypass (r ∷ rs) fine;
          first = (r, rs, refl, ground arith);
          public = ground arith;
          through_tunnel = ground arith;
        },
      )

  -- When `safeResolveHost` returns an address, the host is no blocked literal and no bypass address,
  -- the DNS answered, every address of the answer is public and none is routed around the tunnel,
  -- and the returned address is the first of them.
  pub safe_resolve_host_sound :
      (bypass : List Text) (hostname : Text) (answer : Option (List ResolvedHost))
      (host : ResolvedHost)
      → safe_resolve_host parse_ip bypass hostname answer ≡ some host
      → (rs : List ResolvedHost) × (answer ≡ some rs) × IsPinned bypass hostname rs host
  unfolding safe_resolve_host
  safe_resolve_host_sound bypass hostname answer host h =
      accept-IsPinned bypass hostname answer host (ground arith) (ground arith) (ground arith)

  abbrev pub AllPublic : List ResolvedHost → Type 0
  AllPublic rs = All (λ r. is_private_ip parse_ip r.address ≡ false) rs

  none-AllPublic : (rs : List ResolvedHost) → some_private parse_ip rs ≡ false → AllPublic rs
  unfolding some_private
  none-AllPublic [] h = tt
  none-AllPublic (r ∷ rs) h = (ground arith, none-AllPublic rs (ground arith))

  -- A query that fails, or an answer with public addresses only.
  abbrev pub FailsOrPublic : Option (List ResolvedHost) → Type 0
  FailsOrPublic none = Unit {0}
  FailsOrPublic (some rs) = AllPublic rs

  -- The queries of an accepted URL: an answer at the first or the second attempt, and one more.
  pub record IsResolved (queries : List (Option (List ResolvedHost))) : Type 0 where
    pub answer : List ResolvedHost
    pub rest : List (Option (List ResolvedHost))
    pub asked : (queries ≡ some answer ∷ rest) ⊎ (queries ≡ none ∷ some answer ∷ rest)
    pub answered : answer ≢ []
    pub all_public : AllPublic answer
    pub again : FailsOrPublic (first_answer parse_ip rest)

  recheck_sound : (o : Option (List ResolvedHost)) → recheck parse_ip o ≡ false → FailsOrPublic o
  unfolding recheck
  recheck_sound none h = tt
  recheck_sound (some rs) h = none-AllPublic rs h

  check_answer_sound :
      (rs : List ResolvedHost) (o : Option (List ResolvedHost))
      → check_answer parse_ip rs o ≡ false
      → (rs ≢ []) × AllPublic rs × FailsOrPublic o
  unfolding check_answer
  check_answer_sound [] o h = cc
  check_answer_sound (r ∷ rs) o h =
      ((λ e. cc), none-AllPublic (r ∷ rs) (ground arith), recheck_sound o (ground arith))

  resolve_twice_sound :
      (queries : List (Option (List ResolvedHost)))
      → resolve_twice parse_ip queries ≡ false
      → IsResolved queries
  unfolding resolve_twice first_answer
  resolve_twice_sound [] h = cc
  resolve_twice_sound (some rs ∷ rest) h =
      let (some_row, public, later) = check_answer_sound rs (first_answer parse_ip rest) h in
      record {
        answer = rs;
        rest = rest;
        asked = inl refl;
        answered = some_row;
        all_public = public;
        again = later;
      }
  resolve_twice_sound (none ∷ []) h = cc
  resolve_twice_sound (none ∷ none ∷ rest) h = cc
  resolve_twice_sound (none ∷ some rs ∷ rest) h =
      let (some_row, public, later) = check_answer_sound rs (first_answer parse_ip rest) h in
      record {
        answer = rs;
        rest = rest;
        asked = inr refl;
        answered = some_row;
        all_public = public;
        again = later;
      }

  module _ (hostname_of : Text → Option Text) where
    -- `isPrivateUrl` fails closed: it lets a URL pass only if the URL has a host that is no blocked
    -- literal and, unless names are resolved elsewhere, the DNS answered at the first or second
    -- attempt with one public address or more and no other, and a later query did not answer with a
    -- private one.
    pub is_private_url_sound :
        (url : Text) (resolve : Bool) (queries : List (Option (List ResolvedHost)))
        → is_private_url parse_ip hostname_of url resolve queries ≡ false
        → (host : Text) × (hostname_of url ≡ some host)
          × (is_blocked_host_literal parse_ip host ≡ false)
          × ((resolve ≡ false) ⊎ IsResolved queries)
    unfolding is_private_url
    is_private_url_sound url resolve queries h = elim (Option-cases (hostname_of url)) [
      | inl e ↦ absurd (ground arith)
      | inr (host, e) ↦ elim (Bool-cases resolve) [
        | inl local ↦ (host, e, ground arith, inr (resolve_twice_sound queries (ground arith)))
        | inr remote ↦ (host, e, ground arith, inl remote)
      ]
    ]

    -- The fail-open check is the weaker one: what it rejects on the first DNS answer, the fail-closed
    -- check rejects too.
    is_confirmed-is_private :
        (url : Text) (answer : Option (List ResolvedHost))
        (more : List (Option (List ResolvedHost)))
        → is_confirmed_private_url parse_ip hostname_of url answer ≡ true
        → is_private_url parse_ip hostname_of url true (answer ∷ more) ≡ true
    unfolding is_confirmed_private_url is_private_url confirm resolve_twice check_answer
        first_answer some_private
    is_confirmed-is_private url none more h = ground arith
    is_confirmed-is_private url (some []) more h = ground arith
    is_confirmed-is_private url (some (r ∷ rs)) more h = ground arith
