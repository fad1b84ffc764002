-- ===== src/Utils/SsrfProxy.antt =====
-- `SsrfProxy` of src/utils/ssrf-proxy.ts: what a request makes it open, answer and track. A socket is a
-- number; the handlers give the state and what they do in its order. What other events do while a
-- connection is opened is `meanwhile`; `Egress` holds what is configured and what the network replies.
pub mod Guarded
mod Tests
use ppvda.Base.{
  ◌/◌, ℕ, ◌+◌, ◌*◌, ◌-◌, Bool, true, false, ◌||◌, not, List, [], ◌∷◌, ◌++◌, Option, none, some,
  ◌==◌, ltb, if◌then◌else◌, any, map,
}
use ppvda.Base.Text.{Text, codes, equal, is_digit, is_white}
use ppvda.Utils.Ranges.{Address}
use ppvda.Utils.Url.{
  ResolvedHost, is_blocked_host_literal, safe_resolve_host, strip_brackets, has_ip,
}

pub record SsrfProxy : Type 0 where
  pub listening : Bool
  pub port : Option ℕ
  pub active_sockets : List ℕ

pub init : SsrfProxy
init = record { listening = false; port = none; active_sockets = [] }

pub data SocketEffect : Type 0 where
  -- A DNS query, a connection to an address with its family, and one through the upstream proxy.
  resolves : Text → SocketEffect
  dials : Text → ℕ → ℕ → SocketEffect
  tunnels : Text → ℕ → SocketEffect
  -- A status that ends the request, the answer to `CONNECT`, what was read early, and the pipes.
  ends : ℕ → ℕ → SocketEffect
  establishes : ℕ → SocketEffect
  forwards : Text → SocketEffect
  pipes : ℕ → ℕ → SocketEffect
  -- The request that is sent on over a socket: its path and its `Host`.
  requests : ℕ → Text → Text → SocketEffect
  destroys : ℕ → SocketEffect

pub data Opened : Type 0 where
  blocked failed opened : Opened

pub record Egress : Type 0 where
  pub upstream : Bool
  pub bypass : List Text
  pub answer : Text → Option (List ResolvedHost)
  pub connects : Bool
  pub socket : ℕ

-- `new URL`, where a port is one that is written and not the default.
pub record ParsedUrl : Type 0 where
  pub protocol : Text
  pub hostname : Text
  pub port : Option ℕ
  pub pathname : Text
  pub search : Text
  pub host : Text

-- The promise of the connection.
connected : Egress → Opened
connected e = if e.connects then opened else failed

module _ (parse_ip : Text → Option Address) where
  -- The query that `safeResolveHost` makes.
  looked_up : Egress → Text → List SocketEffect
  looked_up e host =
      if is_blocked_host_literal parse_ip host
      then []
      else if has_ip e.bypass (strip_brackets host)
      then []
      else resolves (strip_brackets host) ∷ []

  dial : Egress → ℕ → List SocketEffect → Option ResolvedHost → List SocketEffect × Opened
  unfolding connected
  dial e port fx none = (fx, blocked)
  dial e port fx (some r) = (fx ++ dials r.address r.family port ∷ [], connected e)

  -- With an upstream proxy and without one.
  open_via : Egress → Text → ℕ → Bool → List SocketEffect × Opened
  unfolding looked_up dial connected
  open_via e host port true =
      if is_blocked_host_literal parse_ip host
      then ([], blocked)
      else (tunnels (strip_brackets host) port ∷ [], connected e)
  open_via e host port false =
      dial e port (looked_up e host)
        (safe_resolve_host parse_ip e.bypass host (e.answer (strip_brackets host)))

  pub open_upstream : Egress → Text → ℕ → List SocketEffect × Opened
  unfolding open_via
  open_upstream e host port = open_via e host port e.upstream

-- `activeSockets.add` and `.delete`
without : ℕ → List ℕ → List ℕ
without s [] = []
without s (t ∷ ts) = let rest = without s ts in if t == s then rest else t ∷ rest

pub add : ℕ → SsrfProxy → SsrfProxy
add s px =
    if any (λ t. t == s) px.active_sockets
    then px
    else record px { active_sockets = px.active_sockets ++ s ∷ [] }

pub on_close : ℕ → SsrfProxy → SsrfProxy
unfolding without
on_close s px = record px { active_sockets = without s px.active_sockets }

pub start : ℕ → SsrfProxy → SsrfProxy
start port px = record px { listening = true; port = some port }

-- `url()` throws where the proxy was not started.
pub url_port : SsrfProxy → Option ℕ
url_port px = px.port

pub stop : SsrfProxy → SsrfProxy × List SocketEffect
stop px =
    if px.listening
    then (record px { listening = false; active_sockets = [] }, map destroys px.active_sockets)
    else (px, [])

-- What stands before and behind the last colon.
pub at_last_colon : Text → Option (Text × Text)
at_last_colon [] = none
at_last_colon (c ∷ t) = elim (at_last_colon t) [
  | some (host, rest) ↦ some (c ∷ host, rest)
  | none ↦ if c == b':' then some ([], t) else none
]

-- `parseInt(t, 10)`; no number and a negative one are alike here, since both are refused.
leading_digits : ℕ → Text → ℕ
leading_digits n [] = n
leading_digits n (c ∷ t) =
    let more = leading_digits (n * 10 + (c - b'0')) t in if is_digit c then more else n

unsigned : Text → Option ℕ
unfolding leading_digits
unsigned [] = none
unsigned (c ∷ t) = if is_digit c then some (leading_digits 0 (c ∷ t)) else none

pub parse_int : Text → Option ℕ
unfolding unsigned
parse_int [] = none
parse_int (c ∷ t) =
    let rest = parse_int t in
    if is_white c then rest else if c == b'+' then unsigned t else unsigned (c ∷ t)

with_port : Text → Option ℕ → Option (Text × ℕ)
with_port host none = none
with_port host (some port) = if (port == 0) || ltb 65_535 port then none else some (host, port)

with_host : Option (Text × Text) → Option (Text × ℕ)
unfolding with_port parse_int
with_host none = none
with_host (some ([], rest)) = none
with_host (some (c ∷ host, rest)) = with_port (c ∷ host) (parse_int rest)

-- The host and the port of a `CONNECT`.
pub connect_target : Text → Option (Text × ℕ)
unfolding with_host at_last_colon
connect_target target = with_host (at_last_colon target)

early : Text → List SocketEffect
early [] = []
early (c ∷ head) = forwards (c ∷ head) ∷ []

-- The end of `handleConnect`, with the state after the wait.
after_connect :
    SsrfProxy → ℕ → Text → ℕ → List SocketEffect × Opened → SsrfProxy × List SocketEffect
unfolding add early
after_connect px client head socket (fx, failed) = (px, fx ++ ends client 502 ∷ [])
after_connect px client head socket (fx, blocked) = (px, fx ++ ends client 403 ∷ [])
after_connect px client head socket (fx, opened) = (
  add socket px,
  fx ++ (establishes client ∷ (early head ++ (pipes socket client ∷ pipes client socket ∷ []))),
)

-- The end of `handleHttp`.
after_http :
    SsrfProxy → ℕ → ParsedUrl → ℕ → List SocketEffect × Opened → SsrfProxy × List SocketEffect
unfolding add
after_http px client u socket (fx, failed) = (px, fx ++ ends client 502 ∷ [])
after_http px client u socket (fx, blocked) = (px, fx ++ ends client 403 ∷ [])
after_http px client u socket (fx, opened) = (
  add socket px,
  fx
      ++ requests socket ((elim u.pathname [ [] ↦ codes "/" | c ∷ t ↦ c ∷ t ]) ++ u.search) u.host
        ∷ [],
)

port_of : Option ℕ → ℕ
port_of none = 80
port_of (some port) = port

module _ (parse_ip : Text → Option Address) (meanwhile : SsrfProxy → SsrfProxy) (e : Egress) where
  connect_to : SsrfProxy → ℕ → Text → Option (Text × ℕ) → SsrfProxy × List SocketEffect
  unfolding after_connect open_upstream
  connect_to px client head none = (px, ends client 400 ∷ [])
  connect_to px client head (some (host, port)) =
      after_connect (meanwhile px) client head e.socket (open_upstream parse_ip e host port)

  pub handle_connect : SsrfProxy → ℕ → Text → Text → SsrfProxy × List SocketEffect
  unfolding connect_to connect_target add
  handle_connect px client target head =
      connect_to (add client px) client head (connect_target target)

  http_to : SsrfProxy → ℕ → Option ParsedUrl → SsrfProxy × List SocketEffect
  unfolding after_http open_upstream port_of
  http_to px client none = (px, ends client 400 ∷ [])
  http_to px client (some u) =
      if not (equal u.protocol (codes "http:"))
      then (px, ends client 400 ∷ [])
      else after_http (meanwhile px) client u e.socket
          (open_upstream parse_ip e u.hostname (port_of u.port))

  -- An empty `req.url` is refused like one that does not parse.
  pub handle_http : (Text → Option ParsedUrl) → SsrfProxy → ℕ → Text → SsrfProxy × List SocketEffect
  unfolding http_to
  handle_http parse_url px client [] = (px, ends client 400 ∷ [])
  handle_http parse_url px client (c ∷ url) = http_to px client (parse_url (c ∷ url))
