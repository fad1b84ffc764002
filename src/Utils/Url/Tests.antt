-- ===== src/Utils/Url/Tests.antt =====
-- Hosts against the checks, and the theorems at concrete inputs, with a reader of two IP literals and
-- a URL parser that gives one host.
use ppvda.Base.{
  All, Bool, if◌then◌else◌, length, ◌≡◌, refl, ◌↔◌, ◌≤◌, ◌⊎◌, true, false, List, [], ◌∷◌, Option,
  some, none, arith,
}
use ppvda.Base.Text.{Text, codes, equal, split}
use ppvda.Utils.Ranges.{Address, ipv4, dotted, is_private_ip}
use ppvda.Utils.Url.{
  ResolvedHost, is_obfuscated_ipv4, safe_resolve_host, is_private_url, is_blocked_host_literal,
}
use ppvda.Utils.Url.Obfuscated.{IsCanonical, is_obfuscated_ipv4_iff}
use ppvda.Utils.Url.Resolve.{IsPinned, IsResolved, safe_resolve_host_sound, is_private_url_sound}

abbrev sample_ip : Text → Option Address
sample_ip t =
    if equal t (codes "8.8.8.8")
    then some (ipv4 (dotted 8 8 8 8))
    else if equal t (codes "10.0.0.1")
    then some (ipv4 (dotted 10 0 0 1))
    else none

abbrev public_row : ResolvedHost
public_row = record { address = codes "8.8.8.8"; family = 4 }

abbrev private_row : ResolvedHost
private_row = record { address = codes "10.0.0.1"; family = 4 }

octal_flagged : is_obfuscated_ipv4 (codes "0177.0.0.1") ≡ true
unfolding is_obfuscated_ipv4 split
octal_flagged = refl

decimal_flagged : is_obfuscated_ipv4 (codes "2130706433") ≡ true
unfolding is_obfuscated_ipv4 split
decimal_flagged = refl

name_passes : is_obfuscated_ipv4 (codes "cdn7.example.com") ≡ false
unfolding is_obfuscated_ipv4 split
name_passes = refl

mixed_answer_refused :
    safe_resolve_host sample_ip [] (codes "a.com") (some (public_row ∷ private_row ∷ [])) ≡ none
unfolding safe_resolve_host is_blocked_host_literal is_private_ip split
mixed_answer_refused = refl

is_obfuscated_ipv4_iff_example : (is_obfuscated_ipv4 (codes "10.0x1.2") ≡ false) ↔ (
    All IsCanonical (split b'.' (codes "10.0x1.2")) × (2 ≤ length (split b'.' (codes "10.0x1.2"))))
unfolding split is_obfuscated_ipv4
is_obfuscated_ipv4_iff_example = is_obfuscated_ipv4_iff (codes "10.0x1.2") refl (omega arith) refl

safe_resolve_host_sound_example :
    (rs : List ResolvedHost) × (some (public_row ∷ []) ≡ some rs)
    × IsPinned sample_ip [] (codes "a.com") rs public_row
unfolding safe_resolve_host is_blocked_host_literal is_private_ip split
safe_resolve_host_sound_example =
    safe_resolve_host_sound sample_ip [] (codes "a.com") (some (public_row ∷ [])) public_row refl

abbrev sample_host : Text → Option Text
sample_host url = some (codes "a.com")

abbrev queries : List (Option (List ResolvedHost))
queries = none ∷ some (public_row ∷ []) ∷ []

is_private_url_sound_example :
    (host : Text) × (sample_host [] ≡ some host)
    × (is_blocked_host_literal sample_ip host ≡ false)
    × ((◌≡◌ {A = Bool} true false) ⊎ IsResolved sample_ip queries)
unfolding is_private_url is_blocked_host_literal is_private_ip split
is_private_url_sound_example = is_private_url_sound sample_ip sample_host [] true queries refl
