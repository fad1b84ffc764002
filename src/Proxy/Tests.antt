-- ===== src/Proxy/Tests.antt =====
-- A proxy URL whose port is the default one of its scheme, which the URL parser gives as empty.
use ppvda.Base.{[], Option, some, none, ◌≡◌, refl}
use ppvda.Base.Text.{Text, codes}
use ppvda.Proxy.{ParsedUrl, parse_proxy_url}

abbrev sample_parse : Text → Option ParsedUrl
sample_parse url = some (record {
  protocol = codes "http:";
  hostname = codes "p.example";
  port = [];
  username = [];
  password = [];
})

default_port_lost :
    parse_proxy_url sample_parse (codes "http://p.example:80")
    ≡ some (record {
      protocol = codes "http";
      host = codes "p.example";
      port = 8_080;
      username = none;
      password = none;
      raw = codes "http://p.example:80";
    })
unfolding parse_proxy_url
default_port_lost = refl
