-- ===== src/Downloader/Direct.antt =====
-- `downloadDirect` and `downloadWithRedirects` of src/downloader/direct.ts. What the network does at each hop
-- of each attempt is an argument; the URL parser is `hostname_of`, with no value where it throws; a
-- header that holds a number is that number, a negative wait counting as none. Chunks are their sizes.
-- An exception in the callback of a response reaches no promise: `uncaught`.
pub mod Bounded
pub mod Guarded
mod Tests
use ppvda.Base.{
  ℕ, zero, suc, ◌+◌, ◌*◌, ◌^◌, Bool, true, false, ◌&&◌, ◌||◌, not, List, [], ◌∷◌, ◌++◌, Option,
  none, some, ◌==◌, ltb, leb, if◌then◌else◌,
}
use ppvda.Base.Text.{Text}
use ppvda.Utils.Ranges.{Address}
use ppvda.Utils.Url.{ResolvedHost, is_blocked_host_literal, safe_resolve_host, strip_brackets}

abbrev pub max_retries : ℕ
max_retries = 3

pub data Location : Type 0 where
  absent malformed : Location
  leads_to : Text → Location

pub record Response : Type 0 where
  pub status : ℕ
  pub location : Location
  pub retry_after : Option ℕ
  pub content_length : Option ℕ
  pub chunks : List ℕ
  pub is_written : Bool

pub data HopReply : Type 0 where
  fails times_out : HopReply
  responds : Response → HopReply

-- What a hop meets: the answer of DNS for each name, and the reply.
pub record Hop : Type 0 where
  pub answer : Text → Option (List ResolvedHost)
  pub reply : HopReply

pub data DirectEffect : Type 0 where
  -- A request, with the address that it is pinned to, and a wait in seconds.
  gets : Text → Option ResolvedHost → DirectEffect
  waits : ℕ → DirectEffect

pub data DirectOutcome : Type 0 where
  -- The bytes that were received.
  completed : ℕ → DirectOutcome
  http_error : ℕ → Option ℕ → DirectOutcome
  too_many_redirects invalid_url ssrf_blocked size_exceeded write_error : DirectOutcome
  network_error timed_out uncaught : DirectOutcome

pub record DirectOptions : Type 0 where
  pub is_proxied : Bool
  pub bypass : List Text
  pub max_redirects : ℕ
  pub max_bytes : Option ℕ

pub total : List ℕ → ℕ
total [] = 0
total (n ∷ ns) = n + total ns

-- `n > opts.maxBytes`, where there is a cap.
pub exceeds : Option ℕ → ℕ → Bool
exceeds none n = false
exceeds (some cap) n = ltb cap n

-- The file is written, or the stream breaks.
store_body : ℕ → Bool → DirectOutcome
store_body n true = completed n
store_body n false = write_error

-- The stream of the body.
pub receive_body : Option ℕ → Response → DirectOutcome
unfolding exceeds total store_body
receive_body cap r =
    if exceeds cap (total r.chunks) then size_exceeded else store_body (total r.chunks) r.is_written

-- `Content-Length`, where it is a number.
announced : Option ℕ → Response → Option ℕ → DirectOutcome
unfolding exceeds receive_body
announced cap r none = receive_body cap r
announced cap r (some n) = if exceeds cap n then size_exceeded else receive_body cap r

-- A response that is no redirect.
pub final_response : Option ℕ → Response → DirectOutcome
unfolding announced
final_response cap r =
    if (r.status == 0) || leb 400 r.status
    then http_error r.status (if r.status == 429 then r.retry_after else none)
    else announced cap r r.content_length

pub is_redirect : ℕ → Bool
is_redirect status = leb 300 status && ltb status 400

-- What a hop does with its reply: an outcome, or the URL of the next hop.
pub data Next : Type 0 where
  ends : DirectOutcome → Next
  follows : Text → Next

located : DirectOptions → Response → Location → Next
unfolding final_response
located o r absent = ends (final_response o.max_bytes r)
located o r malformed = ends uncaught
located o r (leads_to url) = follows url

replied : DirectOptions → HopReply → Next
unfolding located is_redirect final_response
replied o fails = ends network_error
replied o times_out = ends timed_out
replied o (responds r) =
    if is_redirect r.status then located o r r.location else ends (final_response o.max_bytes r)

module _ (parse_ip : Text → Option Address) (hostname_of : Text → Option Text)
    (o : DirectOptions) where
  pinned : Text → Hop → Option ResolvedHost → List DirectEffect × Next
  unfolding replied
  pinned url h none = ([], ends ssrf_blocked)
  pinned url h (some r) = (gets url (some r) ∷ [], replied o h.reply)

  -- With a proxy agent and without one.
  checked : Text → Text → Hop → Bool → List DirectEffect × Next
  unfolding pinned replied
  checked url host h true =
      if is_blocked_host_literal parse_ip host
      then ([], ends ssrf_blocked)
      else (gets url none ∷ [], replied o h.reply)
  checked url host h false =
      pinned url h (safe_resolve_host parse_ip o.bypass host (h.answer (strip_brackets host)))

  parse_hop : Text → Hop → Option Text → List DirectEffect × Next
  unfolding checked
  parse_hop url h none = ([], ends invalid_url)
  parse_hop url h (some host) = checked url host h o.is_proxied

  pub hop : Text → Hop → List DirectEffect × Next
  unfolding parse_hop
  hop url h = parse_hop url h (hostname_of url)

  -- What follows a hop.
  continued :
      (Text → List DirectEffect × DirectOutcome)
      → List DirectEffect × Next
      → List DirectEffect × DirectOutcome
  continued rest (fx, ends out) = (fx, out)
  continued rest (fx, follows url) = let (gx, out) = rest url in (fx ++ gx, out)

  -- The redirects that are left, the hops to come from a number on, and the URL.
  pub download_with_redirects : ℕ → (ℕ → Hop) → ℕ → Text → List DirectEffect × DirectOutcome
  unfolding hop continued
  download_with_redirects zero hops i url = ([], too_many_redirects)
  download_with_redirects (suc n) hops i url =
      continued (download_with_redirects n hops (suc i)) (hop url (hops i))

  -- The wait before another attempt: none where the outcome stands.
  pub wait_of : ℕ → DirectOutcome → Option ℕ
  wait_of attempt (http_error status (some n)) = if status == 429 then some n else none
  wait_of attempt (http_error status none) = if status == 429 then some (2 ^ attempt * 2) else none
  wait_of attempt _ = none

  retried :
      List DirectEffect × DirectOutcome
      → Option ℕ
      → List DirectEffect × DirectOutcome
      → List DirectEffect × DirectOutcome
  retried (fx, out) none rest = (fx, out)
  retried (fx, out) (some n) (gx, later) = (fx ++ waits n ∷ gx, later)

  -- The attempts that are left, and the number of this one.
  pub attempts : ℕ → (ℕ → ℕ → Hop) → ℕ → Text → List DirectEffect × DirectOutcome
  unfolding download_with_redirects wait_of retried
  attempts zero hops i url = download_with_redirects o.max_redirects (hops i) 0 url
  attempts (suc n) hops i url =
      let this = download_with_redirects o.max_redirects (hops i) 0 url in
      retried this (wait_of i this.1) (attempts n hops (suc i) url)

  pub download_direct : (ℕ → ℕ → Hop) → Text → List DirectEffect × DirectOutcome
  unfolding attempts
  download_direct hops url = attempts max_retries hops 0 url
