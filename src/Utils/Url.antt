-- ===== src/Utils/Url.antt =====
-- The checks of hosts in src/utils/url.ts. `new URL(url).hostname` is the parameter `hostname_of`,
-- which gives nothing where the parser throws; `net.isIP` is `parse_ip`; the answer of one DNS query
-- is a value, `none` where the query fails. Hosts are lists of code units.
pub mod Obfuscated
pub mod Resolve
pub mod Pinned
mod Tests
use ppvda.Base.{
  all, drop, if◌then◌else◌, is_some, leb, length, not, ℕ, Bool, true, false, ◌&&◌, ◌||◌, List, [],
  ◌∷◌, Option, none, some, ◌==◌, any,
}
use ppvda.Base.Text.{Text, equal, starts_with, ends_with, split, lower, codes, is_digit}
use ppvda.Utils.Ranges.{Address, is_private_ip}

-- `ResolvedHost`, and a row of a DNS answer: an IP literal and its family.
pub record ResolvedHost : Type 0 where
  pub address : Text
  pub family : ℕ

-- `slice(1, -1)`
abbrev pub drop_last : Text → Text
drop_last [] = []
drop_last (c ∷ []) = []
drop_last (c ∷ d ∷ t) = c ∷ drop_last (d ∷ t)

abbrev pub slice_inner : Text → Text
slice_inner [] = []
slice_inner (c ∷ t) = drop_last t

abbrev pub is_bracketed : Text → Bool
is_bracketed h = starts_with (b'[' ∷ []) h && ends_with (b']' ∷ []) h

pub strip_brackets : Text → Text
strip_brackets hostname = if is_bracketed hostname then slice_inner hostname else hostname

-- `/^\d+$/`
abbrev pub is_digits : Text → Bool
is_digits [] = false
is_digits (c ∷ t) = all is_digit (c ∷ t)

abbrev pub is_hex_digit : ℕ → Bool
is_hex_digit c = is_digit c || leb b'a' c && leb c b'f' || leb b'A' c && leb c b'F'

-- `/^0x/i`
abbrev pub has_hex_prefix : Text → Bool
has_hex_prefix (a ∷ b ∷ t) = (a == b'0') && ((b == b'x') || (b == b'X'))
has_hex_prefix _ = false

-- `/^(0x[0-9a-f]+|\d+)$/i`
pub is_number : Text → Bool
is_number p = is_digits p || has_hex_prefix p && leb 3 (length p) && all is_hex_digit (drop 2 p)

-- The loop over the parts: one that is hexadecimal or octal.
pub has_odd_part : List Text → Bool
has_odd_part [] = false
has_odd_part (p ∷ ps) =
    has_hex_prefix p || leb 2 (length p) && starts_with (b'0' ∷ []) p || has_odd_part ps

abbrev not_empty : Text → Bool
not_empty [] = false
not_empty (c ∷ t) = true

pub is_obfuscated_ipv4 : Text → Bool
unfolding has_odd_part is_number
is_obfuscated_ipv4 hostname =
    let parts = split b'.' hostname in
    if is_bracketed hostname
    then false
    else if is_digits hostname
    then true
    else if leb 1 (length parts) && leb (length parts) 4 && all not_empty parts
    then if all is_number parts then has_odd_part parts else false
    else false

pub is_private_hostname : Text → Bool
is_private_hostname hostname =
    let name = lower hostname in
    equal name (codes "localhost")
    || ends_with (codes ".local") name
    || ends_with (codes ".internal") name
    || equal name (codes "[::1]")
    || equal name (codes "[::]")
    || equal name (codes "::1")
    || equal name (codes "::")

-- `vpnBypassIPs.has(ip)`
abbrev pub has_ip : List Text → Text → Bool
has_ip ips ip = any (equal ip) ips

module _ (parse_ip : Text → Option Address) where
  unfoldable pub is_blocked_host_literal : Text → Bool
  unfolding is_private_hostname is_obfuscated_ipv4 strip_brackets
  is_blocked_host_literal hostname =
      let host = strip_brackets hostname in
      is_private_hostname hostname
      || is_obfuscated_ipv4 hostname
      || is_some (parse_ip host) && is_private_ip parse_ip host

  -- A row that `safeResolveHost` refuses.
  abbrev pub is_refused : List Text → ResolvedHost → Bool
  is_refused bypass r = is_private_ip parse_ip r.address || has_ip bypass r.address

  -- What `safeResolveHost` makes of a DNS answer.
  pub accept : List Text → Option (List ResolvedHost) → Option ResolvedHost
  accept bypass none = none
  accept bypass (some []) = none
  accept bypass (some (r ∷ rs)) =
      if any (is_refused bypass) (r ∷ rs)
      then none
      else some (record { address = r.address; family = if r.family == 6 then 6 else 4 })

  unfoldable pub safe_resolve_host :
      List Text → Text → Option (List ResolvedHost) → Option ResolvedHost
  unfolding accept
  safe_resolve_host bypass hostname answer =
      if is_blocked_host_literal hostname
      then none
      else if has_ip bypass (strip_brackets hostname)
      then none
      else accept bypass answer

  pub some_private : List ResolvedHost → Bool
  some_private rs = any (λ r. is_private_ip parse_ip r.address) rs

  -- The second resolution of `isPrivateUrl`, after the first one passed.
  recheck : Option (List ResolvedHost) → Bool
  unfolding some_private
  recheck none = false
  recheck (some rs) = some_private rs

  -- `isPrivateUrl` on the first answer that was not a failure.
  check_answer : List ResolvedHost → Option (List ResolvedHost) → Bool
  unfolding recheck
  check_answer [] later = true
  check_answer (r ∷ rs) later = if some_private (r ∷ rs) then true else recheck later

  -- `queries` are the answers to come, in order; a query that is not in the list fails.
  pub first_answer : List (Option (List ResolvedHost)) → Option (List ResolvedHost)
  first_answer [] = none
  first_answer (a ∷ more) = a

  abbrev pub later_answers : List (Option (List ResolvedHost)) → List (Option (List ResolvedHost))
  later_answers [] = []
  later_answers (a ∷ more) = more

  -- One retry after a failed query, and after it failure counts as private.
  resolve_twice : List (Option (List ResolvedHost)) → Bool
  unfolding check_answer first_answer
  resolve_twice queries = elim (first_answer queries) [
    | some rs ↦ check_answer rs (first_answer (later_answers queries))
    | none ↦ elim (first_answer (later_answers queries)) [
      | some rs ↦ check_answer rs (first_answer (later_answers (later_answers queries)))
      | none ↦ true
    ]
  ]

  module _ (hostname_of : Text → Option Text) where
    unfoldable pub is_private_url : Text → Bool → List (Option (List ResolvedHost)) → Bool
    unfolding resolve_twice is_blocked_host_literal
    is_private_url url resolve queries = elim (hostname_of url) [
      | none ↦ true
      | some hostname ↦
          if not resolve
          then is_blocked_host_literal hostname
          else if is_blocked_host_literal hostname
          then true
          else resolve_twice queries
    ]

    confirm : Option (List ResolvedHost) → Bool
    unfolding some_private
    confirm none = false
    confirm (some rs) = some_private rs

    pub is_confirmed_private_url : Text → Option (List ResolvedHost) → Bool
    unfolding confirm is_blocked_host_literal
    is_confirmed_private_url url answer = elim (hostname_of url) [
      | none ↦ false
      | some hostname ↦ if is_blocked_host_literal hostname then true else confirm answer
    ]
