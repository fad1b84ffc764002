-- ===== src/Utils/Ranges.antt =====
-- The blocked address ranges of src/utils/url.ts and `net.BlockList` as the program uses it. An
-- address is a number of its family; reading an IP literal is `net.isIP`, the parameter `parse_ip`.
-- A rule holds an address whose bits before the prefix are the rule's; an IPv4-mapped IPv6 address
-- is also checked against the IPv4 rules, as Node documents it.
pub mod Exact
mod Tests
use ppvda.Base.{
  ℕ, ◌+◌, ◌-◌, ◌*◌, ◌/◌, ◌^◌, ◌%◌, Bool, true, false, ◌&&◌, ◌||◌, List, [], ◌∷◌, Option, none, some,
  ◌==◌, any,
}
use ppvda.Base.Text.{Text}

pub data Address : Type 0 where
  ipv4 ipv6 : ℕ → Address

-- A row of the table: the network, the prefix length and the family.
pub data BlockedRange : Type 0 where
  range4 range6 : ℕ → ℕ → BlockedRange

-- The address a.b.c.d.
abbrev pub dotted : ℕ → ℕ → ℕ → ℕ → ℕ
dotted a b c d = a * 16_777_216 + b * 65_536 + c * 256 + d

-- The IPv6 address whose first three groups are these, and whose other groups are zero.
abbrev pub groups : ℕ → ℕ → ℕ → ℕ
groups a b c = a * 2 ^ 112 + b * 2 ^ 96 + c * 2 ^ 80

pub blocked_ranges : List BlockedRange
blocked_ranges =
    range4 (dotted 0 0 0 0) 8
    ∷ range4 (dotted 10 0 0 0) 8
    ∷ range4 (dotted 100 64 0 0) 10
    ∷ range4 (dotted 127 0 0 0) 8
    ∷ range4 (dotted 169 254 0 0) 16
    ∷ range4 (dotted 172 16 0 0) 12
    ∷ range4 (dotted 192 0 0 0) 24
    ∷ range4 (dotted 192 0 2 0) 24
    ∷ range4 (dotted 192 88 99 0) 24
    ∷ range4 (dotted 192 168 0 0) 16
    ∷ range4 (dotted 198 18 0 0) 15
    ∷ range4 (dotted 198 51 100 0) 24
    ∷ range4 (dotted 203 0 113 0) 24
    ∷ range4 (dotted 224 0 0 0) 4
    ∷ range4 (dotted 240 0 0 0) 4
    ∷ range6 0 96
    ∷ range6 (groups 0x64 0xff9b 0) 96
    ∷ range6 (groups 0x64 0xff9b 1) 48
    ∷ range6 (groups 0x100 0 0) 64
    ∷ range6 (groups 0x2001 0 0) 32
    ∷ range6 (groups 0x2001 0xdb8 0) 32
    ∷ range6 (groups 0x2002 0 0) 16
    ∷ range6 (groups 0xfc00 0 0) 7
    ∷ range6 (groups 0xfe80 0 0) 10
    ∷ range6 (groups 0xfec0 0 0) 10
    ∷ range6 (groups 0xff00 0 0) 8
    ∷ []

-- `::ffff:a.b.c.d`
abbrev pub is_mapped : ℕ → Bool
is_mapped n = n / 4_294_967_296 == 65_535

in_range : Address → BlockedRange → Bool
in_range (ipv4 n) (range4 net prefix) = n / 2 ^ (32 - prefix) == net / 2 ^ (32 - prefix)
in_range (ipv4 n) (range6 net prefix) = false
in_range (ipv6 n) (range4 net prefix) =
    is_mapped n && n % 4_294_967_296 / 2 ^ (32 - prefix) == net / 2 ^ (32 - prefix)
in_range (ipv6 n) (range6 net prefix) = n / 2 ^ (128 - prefix) == net / 2 ^ (128 - prefix)

-- `blockList.check(ip, family)`
pub check : Address → Bool
unfolding in_range blocked_ranges
check a = any (in_range a) blocked_ranges

-- `isPrivateIP` of what `isIP` made of the text: no IP literal is private too.
pub is_private_address : Option Address → Bool
unfolding check
is_private_address none = true
is_private_address (some a) = check a

unfoldable pub is_private_ip : (Text → Option Address) → Text → Bool
unfolding is_private_address
is_private_ip parse_ip ip = is_private_address (parse_ip ip)
