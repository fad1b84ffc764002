-- ===== src/Downloader/Direct/Tests.antt =====
-- A download that is asked to retry, follows a redirect and completes.
use ppvda.Base.{
  ℕ, ◌*◌, ◌≡◌, ◌≤◌, refl, All, true, false, [], ◌∷◌, Option, none, some, if◌then◌else◌, ◌==◌,
}
use ppvda.Base.Text.{Text, codes, equal, split}
use ppvda.Utils.Ranges.{Address, ipv4, dotted, is_private_ip}
use ppvda.Utils.Url.{ResolvedHost, safe_resolve_host, is_blocked_host_literal}
use ppvda.Downloader.Direct.{
  absent, leads_to, Location, Hop, responds, gets, waits, completed, DirectOptions, download_direct,
}
use ppvda.Downloader.Direct.Guarded.{IsChecked, download_direct-IsChecked}
use ppvda.Downloader.Direct.Bounded.{count_gets, IsWithin, download_direct_bounded}

abbrev sample_ip : Text → Option Address
sample_ip t = if equal t (codes "8.8.8.8") then some (ipv4 (dotted 8 8 8 8)) else none

abbrev host_of : Text → Option Text
host_of url = some url

abbrev row : ResolvedHost
row = record { address = codes "8.8.8.8"; family = 4 }

abbrev hop_of : ℕ → Location → Hop
hop_of status l = record {
  answer = λ name. some (row ∷ []);
  reply = responds (record {
    status = status;
    location = l;
    retry_after = none;
    content_length = some 30;
    chunks = 10 ∷ 20 ∷ [];
    is_written = true;
  });
}

abbrev hops : ℕ → ℕ → Hop
hops attempt i =
    if attempt == 0
    then hop_of 429 absent
    else if i == 0
    then hop_of 302 (leads_to (codes "b.com"))
    else hop_of 200 absent

abbrev options : DirectOptions
options = record { is_proxied = false; bypass = []; max_redirects = 5; max_bytes = some 64 }

retried_and_followed : download_direct sample_ip host_of options hops (codes "a.com") ≡ (
  gets (codes "a.com") (some row)
      ∷ waits 2
      ∷ gets (codes "a.com") (some row)
      ∷ gets (codes "b.com") (some row)
      ∷ [],
  completed 30,
)
unfolding download_direct safe_resolve_host is_blocked_host_literal is_private_ip split
retried_and_followed = refl

download_direct-IsChecked_example :
    All
      (IsChecked sample_ip host_of options hops)
      (download_direct sample_ip host_of options hops (codes "a.com")).0
download_direct-IsChecked_example =
    download_direct-IsChecked sample_ip host_of options hops (codes "a.com")

download_direct_bounded_example :
    (count_gets (download_direct sample_ip host_of options hops (codes "a.com")).0 ≤ 4 * 5)
    × IsWithin (some 64) (download_direct sample_ip host_of options hops (codes "a.com")).1
download_direct_bounded_example =
    download_direct_bounded sample_ip host_of options hops (codes "a.com")
