-- ===== src/Downloader/Direct/Bounded.antt =====
-- How many requests a direct download makes, and how much it stores.
use ppvda.Base.{
  subst, ℕ, zero, suc, ◌+◌, ◌*◌, ◌≤◌, ◌≡◌, Bool, true, false, ◌||◌, ◌==◌, leb, List, [], ◌∷◌, ◌++◌,
  Option, none, some, arith, Bool-cases, inl, inr,
}
use ppvda.Base.Text.{Text}
use ppvda.Utils.Ranges.{Address}
use ppvda.Utils.Url.{ResolvedHost, is_blocked_host_literal}
use ppvda.Downloader.Direct.{
  Location, absent, malformed, leads_to, Response, Hop, HopReply, fails, times_out, responds,
  DirectEffect, gets, waits, DirectOutcome, completed, DirectOptions, Next, ends, follows, exceeds,
  total, store_body, receive_body, announced, final_response, is_redirect, located, replied, pinned,
  checked, parse_hop, hop, continued, download_with_redirects, retried, attempts, download_direct,
}

pub count_gets : List DirectEffect → ℕ
count_gets [] = 0
count_gets (gets url r ∷ fx) = 1 + count_gets fx
count_gets (waits n ∷ fx) = count_gets fx

count_gets-append :
    (fx gx : List DirectEffect) → count_gets (fx ++ gx) ≡ count_gets fx + count_gets gx
unfolding count_gets
count_gets-append [] gx = omega arith
count_gets-append (gets url r ∷ fx) gx = omega (arith, count_gets-append fx gx)
count_gets-append (waits n ∷ fx) gx = count_gets-append fx gx

-- What is completed is within the cap.
pub IsAtMost : Option ℕ → ℕ → Type 0
IsAtMost none n = Unit {0}
IsAtMost (some cap) n = n ≤ cap

pub IsWithin : Option ℕ → DirectOutcome → Type 0
IsWithin cap (completed n) = IsAtMost cap n
IsWithin cap _ = Unit {0}

NextIsWithin : Option ℕ → Next → Type 0
NextIsWithin cap (ends out) = IsWithin cap out
NextIsWithin cap (follows url) = Unit {0}

store_body-IsWithin :
    (cap : Option ℕ) (n : ℕ) (b : Bool) → exceeds cap n ≡ false → IsWithin cap (store_body n b)
unfolding store_body exceeds IsWithin IsAtMost
store_body-IsWithin none n true h = tt
store_body-IsWithin (some cap) n true h = ground (arith, h)
store_body-IsWithin cap n false h = tt

receive_body-IsWithin : (cap : Option ℕ) (r : Response) → IsWithin cap (receive_body cap r)
unfolding receive_body IsWithin
receive_body-IsWithin cap r = elim (Bool-cases (exceeds cap (total r.chunks))) [
  | inl e ↦ rw e tt
  | inr e ↦ rw e (store_body-IsWithin cap (total r.chunks) r.is_written e)
]

announced-IsWithin :
    (cap : Option ℕ) (r : Response) (m : Option ℕ) → IsWithin cap (announced cap r m)
unfolding announced IsWithin
announced-IsWithin cap r none = receive_body-IsWithin cap r
announced-IsWithin cap r (some n) = elim (Bool-cases (exceeds cap n)) [
  | inl e ↦ rw e tt
  | inr e ↦ rw e (receive_body-IsWithin cap r)
]

final_response-IsWithin : (cap : Option ℕ) (r : Response) → IsWithin cap (final_response cap r)
unfolding final_response IsWithin
final_response-IsWithin cap r = elim (Bool-cases ((r.status == 0) || leb 400 r.status)) [
  | inl e ↦ rw e tt
  | inr e ↦ rw e (announced-IsWithin cap r r.content_length)
]

module _ (o : DirectOptions) where
  located-IsWithin : (r : Response) (l : Location) → NextIsWithin o.max_bytes (located o r l)
  unfolding located NextIsWithin IsWithin
  located-IsWithin r absent = final_response-IsWithin o.max_bytes r
  located-IsWithin r malformed = tt
  located-IsWithin r (leads_to url) = tt

  replied-IsWithin : (r : HopReply) → NextIsWithin o.max_bytes (replied o r)
  unfolding replied NextIsWithin IsWithin
  replied-IsWithin fails = tt
  replied-IsWithin times_out = tt
  replied-IsWithin (responds r) = elim (Bool-cases (is_redirect r.status)) [
    | inl e ↦ rw e (located-IsWithin r r.location)
    | inr e ↦ rw e (final_response-IsWithin o.max_bytes r)
  ]

  -- At most so many requests, and an outcome within the cap.
  IsBounded : ℕ → List DirectEffect × DirectOutcome → Type 0
  IsBounded n (fx, out) = (count_gets fx ≤ n) × IsWithin o.max_bytes out

  IsOneHop : List DirectEffect × Next → Type 0
  IsOneHop (fx, next) = (count_gets fx ≤ 1) × NextIsWithin o.max_bytes next

module _ (parse_ip : Text → Option Address) (hostname_of : Text → Option Text)
    (o : DirectOptions) where
  pinned-IsOneHop :
      (url : Text) (h : Hop) (m : Option ResolvedHost)
      → IsOneHop o (pinned parse_ip hostname_of o url h m)
  unfolding pinned IsOneHop NextIsWithin IsWithin count_gets
  pinned-IsOneHop url h none = (omega arith, tt)
  pinned-IsOneHop url h (some r) = (omega arith, replied-IsWithin o h.reply)

  checked-IsOneHop :
      (url host : Text) (h : Hop) (b : Bool)
      → IsOneHop o (checked parse_ip hostname_of o url host h b)
  unfolding checked IsOneHop NextIsWithin IsWithin count_gets
  checked-IsOneHop url host h true = elim (Bool-cases (is_blocked_host_literal parse_ip host)) [
    | inl l ↦ rw l (omega arith, tt)
    | inr l ↦ rw l (omega arith, replied-IsWithin o h.reply)
  ]
  checked-IsOneHop url host h false = pinned-IsOneHop url h _

  parse_hop-IsOneHop :
      (url : Text) (h : Hop) (m : Option Text)
      → IsOneHop o (parse_hop parse_ip hostname_of o url h m)
  unfolding parse_hop IsOneHop NextIsWithin IsWithin count_gets
  parse_hop-IsOneHop url h none = (omega arith, tt)
  parse_hop-IsOneHop url h (some host) = checked-IsOneHop url host h o.is_proxied

  continued-IsBounded :
      (n : ℕ) (rest : Text → List DirectEffect × DirectOutcome) (t : List DirectEffect × Next)
      → ((url : Text) → IsBounded o n (rest url))
      → IsOneHop o t
      → IsBounded o (suc n) (continued parse_ip hostname_of o rest t)
  unfolding continued IsBounded IsOneHop NextIsWithin
  continued-IsBounded n rest (fx, ends out) h k = (omega (arith, k.0), k.1)
  continued-IsBounded n rest (fx, follows url) h k =
      (omega (arith, k.0, (h url).0, count_gets-append fx (rest url).0), (h url).1)

  download_with_redirects-IsBounded :
      (n : ℕ) (hops : ℕ → Hop) (i : ℕ) (url : Text)
      → IsBounded o n (download_with_redirects parse_ip hostname_of o n hops i url)
  unfolding download_with_redirects hop IsBounded IsWithin count_gets
  download_with_redirects-IsBounded zero hops i url = (omega arith, tt)
  download_with_redirects-IsBounded (suc n) hops i url =
      continued-IsBounded n (download_with_redirects parse_ip hostname_of o n hops (suc i))
        (parse_hop parse_ip hostname_of o url (hops i) (hostname_of url))
        (download_with_redirects-IsBounded n hops (suc i))
        (parse_hop-IsOneHop url (hops i) (hostname_of url))

  retried-IsBounded :
      (m n : ℕ) (t r : List DirectEffect × DirectOutcome) (w : Option ℕ)
      → IsBounded o m t
      → IsBounded o n r
      → IsBounded o (m + n) (retried parse_ip hostname_of o t w r)
  unfolding retried IsBounded count_gets
  retried-IsBounded m n (fx, out) (gx, later) none h k = (omega (arith, h.0), h.1)
  retried-IsBounded m n (fx, out) (gx, later) (some s) h k =
      (omega (arith, h.0, k.0, count_gets-append fx (waits s ∷ gx)), k.1)

  attempts-IsBounded :
      (n : ℕ) (hops : ℕ → ℕ → Hop) (i : ℕ) (url : Text)
      → IsBounded o (suc n * o.max_redirects) (attempts parse_ip hostname_of o n hops i url)
  unfolding attempts
  attempts-IsBounded zero hops i url =
      subst
        (λ k.
          IsBounded o k
            (download_with_redirects parse_ip hostname_of o o.max_redirects (hops i) 0 url))
        (omega arith) (download_with_redirects-IsBounded o.max_redirects (hops i) 0 url)
  attempts-IsBounded (suc n) hops i url =
      subst (λ k. IsBounded o k (attempts parse_ip hostname_of o (suc n) hops i url)) (omega arith)
        (retried-IsBounded o.max_redirects (suc n * o.max_redirects)
          (download_with_redirects parse_ip hostname_of o o.max_redirects (hops i) 0 url)
          (attempts parse_ip hostname_of o n hops (suc i) url) _
          (download_with_redirects-IsBounded o.max_redirects (hops i) 0 url)
          (attempts-IsBounded n hops (suc i) url))

  -- However the servers redirect and ask to retry, a direct download makes at most four times as many
  -- requests as redirects are allowed, and one that completes has received no more bytes than the
  -- cap, where there is one.
  pub download_direct_bounded :
      (hops : ℕ → ℕ → Hop) (url : Text)
      → (count_gets (download_direct parse_ip hostname_of o hops url).0 ≤ 4 * o.max_redirects)
        × IsWithin o.max_bytes (download_direct parse_ip hostname_of o hops url).1
  unfolding download_direct IsBounded
  download_direct_bounded hops url = attempts-IsBounded 3 hops 0 url
