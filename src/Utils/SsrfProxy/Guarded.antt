-- ===== src/Utils/SsrfProxy/Guarded.antt =====
-- What the proxy lets through.
use ppvda.Base.{
  ℕ, ◌≡◌, ◌≤◌, ◌<◌, refl, Bool, true, false, List, [], ◌∷◌, Option, none, some, ◌==◌, ltb,
  if◌then◌else◌, arith, All, All-append, Bool-cases, inl, inr,
}
use ppvda.Base.Text.{Text, codes, equal}
use ppvda.Utils.Ranges.{Address}
use ppvda.Utils.Url.{
  ResolvedHost, is_blocked_host_literal, safe_resolve_host, strip_brackets, has_ip,
}
use ppvda.Utils.Url.Resolve.{IsPinned, safe_resolve_host_sound}
use ppvda.Utils.SsrfProxy.{
  add, SsrfProxy, SocketEffect, resolves, dials, tunnels, ends, Opened, opened, blocked, failed,
  Egress, ParsedUrl, open_upstream, open_via, looked_up, dial, after_connect, after_http,
  connect_to, http_to, handle_connect, handle_http, connect_target, with_host, with_port,
  at_last_colon, early, parse_int,
}

pub IsPortOf : Option (Text × ℕ) → Type 0
IsPortOf none = Unit {0}
IsPortOf (some (host, port)) = (0 < port) × (port ≤ 65_535)

abbrev pub at_port : Option ℕ → ℕ
at_port none = 80
at_port (some port) = port

-- The target of a plain request: the host and the port of an `http:` URL.
pub http_target : Option ParsedUrl → Option (Text × ℕ)
http_target none = none
http_target (some u) =
    if equal u.protocol (codes "http:") then some (u.hostname, at_port u.port) else none

with_port-IsPortOf : (host : Text) (o : Option ℕ) → IsPortOf (with_port host o)
unfolding with_port IsPortOf
with_port-IsPortOf host none = tt
with_port-IsPortOf host (some port) = elim (Bool-cases (port == 0)) [
  | inl z ↦ rw z tt
  | inr z ↦ elim (Bool-cases (ltb 65_535 port)) [
    | inl l ↦ rw (z, l) tt
    | inr l ↦ rw (z, l) (ground (arith, z), ground (arith, l))
  ]
]

with_host-IsPortOf : (o : Option (Text × Text)) → IsPortOf (with_host o)
unfolding with_host IsPortOf
with_host-IsPortOf none = tt
with_host-IsPortOf (some ([], rest)) = tt
with_host-IsPortOf (some (c ∷ host, rest)) = with_port-IsPortOf (c ∷ host) (parse_int rest)

connect_target-IsPortOf : (target : Text) → IsPortOf (connect_target target)
unfolding connect_target
connect_target-IsPortOf target = with_host-IsPortOf (at_last_colon target)

module _ (parse_ip : Text → Option Address) where
  -- What may go out for a host and a port: with an upstream proxy only a tunnel for a host that is no
  -- blocked literal; without one a query for such a host, and a connection to a public address that its
  -- answer gave first and that no other address of the answer spoils.
  pub IsGuarded : Egress → Text → ℕ → SocketEffect → Type 0
  IsGuarded e host port (resolves name) =
      (e.upstream ≡ false)
      × (name ≡ strip_brackets host)
      × (is_blocked_host_literal parse_ip host ≡ false)
  IsGuarded e host port (dials address family p) =
      (r : ResolvedHost) × (rs : List ResolvedHost) × (e.upstream ≡ false)
      × (p ≡ port)
      × (address ≡ r.address)
      × (e.answer (strip_brackets host) ≡ some rs)
      × IsPinned parse_ip e.bypass host rs r
  IsGuarded e host port (tunnels name p) =
      (e.upstream ≡ true)
      × (p ≡ port)
      × (name ≡ strip_brackets host)
      × (is_blocked_host_literal parse_ip host ≡ false)
  IsGuarded e host port _ = Unit {0}

  looked_up-IsGuarded :
      (e : Egress) (host : Text) (port : ℕ)
      → e.upstream ≡ false
      → All (IsGuarded e host port) (looked_up parse_ip e host)
  unfolding looked_up IsGuarded
  looked_up-IsGuarded e host port u = elim (Bool-cases (is_blocked_host_literal parse_ip host)) [
    | inl b ↦ rw b tt
    | inr b ↦ elim (Bool-cases (has_ip e.bypass (strip_brackets host))) [
      | inl h ↦ rw (b, h) tt
      | inr h ↦ rw (b, h) ((u, refl, b), tt)
    ]
  ]

  dial-IsGuarded :
      (e : Egress) (host : Text) (port : ℕ)
      → e.upstream ≡ false
      → (o : Option ResolvedHost)
      → safe_resolve_host parse_ip e.bypass host (e.answer (strip_brackets host)) ≡ o
      → All (IsGuarded e host port) (dial parse_ip e port (looked_up parse_ip e host) o).0
  unfolding dial IsGuarded
  dial-IsGuarded e host port u none h = looked_up-IsGuarded e host port u
  dial-IsGuarded e host port u (some r) h =
      let (rs, asked, pinned) =
        safe_resolve_host_sound parse_ip e.bypass host (e.answer (strip_brackets host)) r h in
      All-append (IsGuarded e host port) (looked_up parse_ip e host)
        (dials r.address r.family port ∷ []) (looked_up-IsGuarded e host port u)
        ((r, rs, u, refl, refl, asked, pinned), tt)

  open_via-IsGuarded :
      (e : Egress) (host : Text) (port : ℕ) (up : Bool)
      → e.upstream ≡ up
      → All (IsGuarded e host port) (open_via parse_ip e host port up).0
  unfolding open_via IsGuarded
  open_via-IsGuarded e host port true u =
      elim (Bool-cases (is_blocked_host_literal parse_ip host)) [
        | inl b ↦ rw b tt
        | inr b ↦ rw b ((u, refl, refl, b), tt)
      ]
  open_via-IsGuarded e host port false u = dial-IsGuarded e host port u _ refl

  open_upstream-IsGuarded :
      (e : Egress) (host : Text) (port : ℕ)
      → All (IsGuarded e host port) (open_upstream parse_ip e host port).0
  unfolding open_upstream
  open_upstream-IsGuarded e host port = open_via-IsGuarded e host port e.upstream refl

  after_connect-IsGuarded :
      (e : Egress) (host : Text) (port : ℕ) (px : SsrfProxy) (client : ℕ) (head : Text)
      (o : List SocketEffect × Opened)
      → All (IsGuarded e host port) o.0
      → All (IsGuarded e host port) (after_connect px client head e.socket o).1
  unfolding after_connect IsGuarded early
  after_connect-IsGuarded e host port px client head (fx, failed) h =
      All-append (IsGuarded e host port) fx _ h (tt, tt)
  after_connect-IsGuarded e host port px client head (fx, blocked) h =
      All-append (IsGuarded e host port) fx _ h (tt, tt)
  after_connect-IsGuarded e host port px client [] (fx, opened) h =
      All-append (IsGuarded e host port) fx _ h (tt, (tt, (tt, tt)))
  after_connect-IsGuarded e host port px client (c ∷ head) (fx, opened) h =
      All-append (IsGuarded e host port) fx _ h (tt, (tt, (tt, (tt, tt))))

  after_http-IsGuarded :
      (e : Egress) (host : Text) (port : ℕ) (px : SsrfProxy) (client : ℕ) (u : ParsedUrl)
      (o : List SocketEffect × Opened)
      → All (IsGuarded e host port) o.0
      → All (IsGuarded e host port) (after_http px client u e.socket o).1
  unfolding after_http IsGuarded
  after_http-IsGuarded e host port px client u (fx, failed) h =
      All-append (IsGuarded e host port) fx _ h (tt, tt)
  after_http-IsGuarded e host port px client u (fx, blocked) h =
      All-append (IsGuarded e host port) fx _ h (tt, tt)
  after_http-IsGuarded e host port px client u (fx, opened) h =
      All-append (IsGuarded e host port) fx _ h (tt, tt)

  -- Without a target nothing goes out.
  pub GuardedFor : Egress → Option (Text × ℕ) → SocketEffect → Type 0
  GuardedFor e (some (host, port)) fx = IsGuarded e host port fx
  GuardedFor e none (resolves name) = ⊥
  GuardedFor e none (dials address family port) = ⊥
  GuardedFor e none (tunnels name port) = ⊥
  GuardedFor e none _ = Unit {0}

  module _ (meanwhile : SsrfProxy → SsrfProxy) (e : Egress) where
    connect_to-GuardedFor :
        (px : SsrfProxy) (client : ℕ) (head : Text) (o : Option (Text × ℕ))
        → All (GuardedFor e o) (connect_to parse_ip meanwhile e px client head o).1
    unfolding connect_to GuardedFor
    connect_to-GuardedFor px client head none = (tt, tt)
    connect_to-GuardedFor px client head (some (host, port)) =
        after_connect-IsGuarded e host port (meanwhile px) client head
          (open_upstream parse_ip e host port) (open_upstream-IsGuarded e host port)

    http_to-GuardedFor :
        (px : SsrfProxy) (client : ℕ) (o : Option ParsedUrl)
        → All (GuardedFor e (http_target o)) (http_to parse_ip meanwhile e px client o).1
    unfolding http_to GuardedFor http_target
    http_to-GuardedFor px client none = (tt, tt)
    http_to-GuardedFor px client (some u) = elim (Bool-cases (equal u.protocol (codes "http:"))) [
      | inl h ↦ rw h (
          after_http-IsGuarded e u.hostname (at_port u.port) (meanwhile px) client u
            (open_upstream parse_ip e u.hostname (at_port u.port))
            (open_upstream-IsGuarded e u.hostname (at_port u.port)))
      | inr h ↦ rw h (tt, tt)
    ]

    ends-GuardedFor :
        (client status : ℕ) (o : Option (Text × ℕ)) → GuardedFor e o (ends client status)
    unfolding GuardedFor IsGuarded
    ends-GuardedFor client status none = tt
    ends-GuardedFor client status (some (host, port)) = tt

    -- Whatever a client sends as the target of a `CONNECT` or as an absolute URL, everything that goes
    -- out is for the host and the port of that target: with an upstream proxy only a tunnel for a host
    -- that is no blocked literal, and no DNS query; without one only a query for such a host and a
    -- connection to the first address of an answer without private and bypassed addresses. The
    -- port of a `CONNECT` is between 1 and 65535, and without a target nothing goes out.
    pub handle_guarded :
        (parse_url : Text → Option ParsedUrl) (px : SsrfProxy) (client : ℕ) (target head url : Text)
        → IsPortOf (connect_target target)
          × All
              (GuardedFor e (connect_target target))
              (handle_connect parse_ip meanwhile e px client target head).1
          × All
              (GuardedFor e (http_target (parse_url url)))
              (handle_http parse_ip meanwhile e parse_url px client url).1
    unfolding handle_connect handle_http
    handle_guarded parse_url px client target head [] = (
      connect_target-IsPortOf target,
      connect_to-GuardedFor (add client px) client head (connect_target target),
      (ends-GuardedFor client 400 (http_target (parse_url [])), tt),
    )
    handle_guarded parse_url px client target head (c ∷ url) = (
      connect_target-IsPortOf target,
      connect_to-GuardedFor (add client px) client head (connect_target target),
      http_to-GuardedFor px client (parse_url (c ∷ url)),
    )
