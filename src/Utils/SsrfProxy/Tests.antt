-- ===== src/Utils/SsrfProxy/Tests.antt =====
-- Targets and requests of the proxy, and its theorem at a concrete input.
use ppvda.Base.{◌≡◌, refl, All, true, false, [], ◌∷◌, Option, none, some, if◌then◌else◌}
use ppvda.Base.Text.{Text, codes, equal}
use ppvda.Utils.Ranges.{Address, ipv4, dotted}
use ppvda.Utils.SsrfProxy.{init, Egress, ParsedUrl, connect_target, handle_connect, handle_http}
use ppvda.Utils.SsrfProxy.Guarded.{GuardedFor, IsPortOf, http_target, handle_guarded}

abbrev sample_ip : Text → Option Address
sample_ip t = if equal t (codes "8.8.8.8") then some (ipv4 (dotted 8 8 8 8)) else none

abbrev direct : Egress
direct = record {
  upstream = false;
  bypass = [];
  answer = λ host. some (record { address = codes "8.8.8.8"; family = 4 } ∷ []);
  connects = true;
  socket = 7;
}

target_read : connect_target (codes "a.com:443") ≡ some (codes "a.com", 443)
unfolding connect_target
target_read = refl

last_colon_read :
    connect_target (codes "[2001:db8::1]:65535x") ≡ some (codes "[2001:db8::1]", 65_535)
unfolding connect_target
last_colon_read = refl

port_refused : connect_target (codes "a.com:65536") ≡ none
unfolding connect_target
port_refused = refl

abbrev parsed : ParsedUrl
parsed = record {
  protocol = codes "http:";
  hostname = codes "a.com";
  port = none;
  pathname = [];
  search = [];
  host = codes "a.com";
}

handle_guarded_example :
    IsPortOf (connect_target (codes "a.com:443"))
    × All
        (GuardedFor sample_ip direct (connect_target (codes "a.com:443")))
        (handle_connect sample_ip (λ px. px) direct init 3 (codes "a.com:443") []).1
    × All
        (GuardedFor sample_ip direct (http_target (some parsed)))
        (handle_http sample_ip
          (λ px. px)
          direct
          (λ url. some parsed)
          init
          3
          (codes "http://a.com")).1
handle_guarded_example =
    handle_guarded sample_ip (λ px. px) direct (λ url. some parsed) init 3 (codes "a.com:443") []
      (codes "http://a.com")
