-- ===== src/Proxy.antt =====
-- `parseProxyUrl` of src/proxy/index.ts. `new URL(url)` is the parameter `parse`: its port is empty
-- where the URL names none, or the default port of its scheme.
mod Tests
use ppvda.Base.{
  ℕ, ◌+◌, ◌-◌, ◌*◌, Bool, true, false, ◌||◌, List, [], ◌∷◌, Option, none, some, ◌==◌, any,
  if◌then◌else◌,
}
use ppvda.Base.Text.{Text, codes, equal, starts_with, is_digit}

pub record ParsedUrl : Type 0 where
  pub protocol : Text
  pub hostname : Text
  pub port : Text
  pub username : Text
  pub password : Text

pub record ProxyConfig : Type 0 where
  pub protocol : Text
  pub host : Text
  pub port : ℕ
  pub username : Option Text
  pub password : Option Text
  pub raw : Text

-- `protocol.replace(':', '')`
abbrev drop_colon : Text → Text
drop_colon [] = []
drop_colon (c ∷ t) = if c == b':' then t else c ∷ drop_colon t

-- `parseInt(port, 10) || fallback`: a port is digits only, or empty.
port_number : ℕ → Text → ℕ
port_number n [] = n
port_number n (c ∷ t) = port_number (n * 10 + (c - b'0')) t

port_or : ℕ → Text → ℕ
unfolding port_number
port_or fallback port = if port_number 0 port == 0 then fallback else port_number 0 port

-- `text || undefined`
abbrev given : Text → Option Text
given [] = none
given (c ∷ t) = some (c ∷ t)

abbrev protocols : List Text
protocols = codes "socks5" ∷ codes "socks4" ∷ codes "http" ∷ codes "https" ∷ []

config_of : Text → ParsedUrl → Text → Option ProxyConfig
unfolding port_or
config_of url parsed protocol =
    if any (equal protocol) protocols
    then some (record {
      protocol = protocol;
      host = parsed.hostname;
      port = port_or (if starts_with (codes "socks") protocol then 1_080 else 8_080) parsed.port;
      username = given parsed.username;
      password = given parsed.password;
      raw = url;
    })
    else none

-- `none` where the source throws.
unfoldable pub parse_proxy_url : (Text → Option ParsedUrl) → Text → Option ProxyConfig
unfolding config_of
parse_proxy_url parse url = elim (parse url) [
  | none ↦ none
  | some parsed ↦ config_of url parsed (drop_colon parsed.protocol)
]
