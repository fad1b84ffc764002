-- ===== src/Downloader/Direct/Guarded.antt =====
-- Every request of a direct download is for a host that passed the checks.
use ppvda.Base.{
  ℕ, zero, suc, ◌≡◌, refl, Bool, true, false, List, ◌∷◌, Option, none, some, All, All-append,
  Bool-cases, inl, inr,
}
use ppvda.Base.Text.{Text}
use ppvda.Utils.Ranges.{Address}
use ppvda.Utils.Url.{ResolvedHost, is_blocked_host_literal, safe_resolve_host, strip_brackets}
use ppvda.Utils.Url.Resolve.{IsPinned, safe_resolve_host_sound}
use ppvda.Downloader.Direct.{
  max_retries, Hop, DirectEffect, gets, waits, DirectOutcome, DirectOptions, Next, ends, follows,
  pinned, checked, parse_hop, hop, continued, download_with_redirects, retried, attempts,
  download_direct,
}

module _ (parse_ip : Text → Option Address) (hostname_of : Text → Option Text) (o : DirectOptions)
    (net : ℕ → ℕ → Hop) where
  -- With a proxy the host of the URL is no blocked literal; without one the request goes to the first
  -- address of what DNS answered for that host at a hop, where no address is private or bypassed.
  pub IsChecked : DirectEffect → Type 0
  IsChecked (gets url none) =
      (host : Text) × (hostname_of url ≡ some host)
      × (o.is_proxied ≡ true)
      × (is_blocked_host_literal parse_ip host ≡ false)
  IsChecked (gets url (some r)) =
      (host : Text) × (rs : List ResolvedHost) × (i : ℕ) × (j : ℕ) × (hostname_of url ≡ some host)
      × (o.is_proxied ≡ false)
      × ((net i j).answer (strip_brackets host) ≡ some rs)
      × IsPinned parse_ip o.bypass host rs r
  IsChecked (waits n) = Unit {0}

  pinned-IsChecked :
      (url host : Text) (i j : ℕ) (m : Option ResolvedHost)
      → hostname_of url ≡ some host
      → o.is_proxied ≡ false
      → safe_resolve_host parse_ip o.bypass host ((net i j).answer (strip_brackets host)) ≡ m
      → All IsChecked (pinned parse_ip hostname_of o url (net i j) m).0
  unfolding pinned IsChecked
  pinned-IsChecked url host i j none e d q = tt
  pinned-IsChecked url host i j (some r) e d q =
      let (rs, asked, fine) =
        safe_resolve_host_sound parse_ip o.bypass host ((net i j).answer (strip_brackets host)) r
          q in
      ((host, rs, i, j, e, d, asked, fine), tt)

  checked-IsChecked :
      (url host : Text) (i j : ℕ) (b : Bool)
      → hostname_of url ≡ some host
      → o.is_proxied ≡ b
      → All IsChecked (checked parse_ip hostname_of o url host (net i j) b).0
  unfolding checked IsChecked
  checked-IsChecked url host i j true e d =
      elim (Bool-cases (is_blocked_host_literal parse_ip host)) [
        | inl l ↦ rw l tt
        | inr l ↦ rw l ((host, e, d, l), tt)
      ]
  checked-IsChecked url host i j false e d = pinned-IsChecked url host i j _ e d refl

  parse_hop-IsChecked :
      (url : Text) (i j : ℕ) (m : Option Text)
      → hostname_of url ≡ m
      → All IsChecked (parse_hop parse_ip hostname_of o url (net i j) m).0
  unfolding parse_hop
  parse_hop-IsChecked url i j none e = tt
  parse_hop-IsChecked url i j (some host) e = checked-IsChecked url host i j o.is_proxied e refl

  continued-IsChecked :
      (rest : Text → List DirectEffect × DirectOutcome) (t : List DirectEffect × Next)
      → ((url : Text) → All IsChecked (rest url).0)
      → All IsChecked t.0
      → All IsChecked (continued parse_ip hostname_of o rest t).0
  unfolding continued
  continued-IsChecked rest (fx, ends out) h k = k
  continued-IsChecked rest (fx, follows url) h k = All-append IsChecked fx (rest url).0 k (h url)

  download_with_redirects-IsChecked :
      (n i j : ℕ) (url : Text)
      → All IsChecked (download_with_redirects parse_ip hostname_of o n (net i) j url).0
  unfolding download_with_redirects hop
  download_with_redirects-IsChecked zero i j url = tt
  download_with_redirects-IsChecked (suc n) i j url =
      continued-IsChecked (download_with_redirects parse_ip hostname_of o n (net i) (suc j))
        (parse_hop parse_ip hostname_of o url (net i j) (hostname_of url))
        (download_with_redirects-IsChecked n i (suc j))
        (parse_hop-IsChecked url i j (hostname_of url) refl)

  retried-IsChecked :
      (t r : List DirectEffect × DirectOutcome) (w : Option ℕ)
      → All IsChecked t.0
      → All IsChecked r.0
      → All IsChecked (retried parse_ip hostname_of o t w r).0
  unfolding retried IsChecked
  retried-IsChecked (fx, out) (gx, later) none h k = h
  retried-IsChecked (fx, out) (gx, later) (some n) h k =
      All-append IsChecked fx (waits n ∷ gx) h (tt, k)

  attempts-IsChecked :
      (n i : ℕ) (url : Text) → All IsChecked (attempts parse_ip hostname_of o n net i url).0
  unfolding attempts
  attempts-IsChecked zero i url = download_with_redirects-IsChecked o.max_redirects i 0 url
  attempts-IsChecked (suc n) i url =
      retried-IsChecked
        (download_with_redirects parse_ip hostname_of o o.max_redirects (net i) 0 url)
        (attempts parse_ip hostname_of o n net (suc i) url) _
        (download_with_redirects-IsChecked o.max_redirects i 0 url)
        (attempts-IsChecked n (suc i) url)

  -- At every attempt and every redirect of a direct download, whatever the servers and DNS reply, a
  -- request is made only with a proxy for a host that is no blocked literal, or pinned to the first
  -- address of an answer that DNS gave at a hop of the download for the host of that URL, in which no
  -- address is private or bypassed.
  pub download_direct-IsChecked :
      (url : Text) → All IsChecked (download_direct parse_ip hostname_of o net url).0
  unfolding download_direct
  download_direct-IsChecked url = attempts-IsChecked max_retries 0 url
