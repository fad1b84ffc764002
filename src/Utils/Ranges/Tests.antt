-- ===== src/Utils/Ranges/Tests.antt =====
-- Addresses against the table, and the theorems at concrete addresses.
use ppvda.Base.{◌≡◌, refl, ◌↔◌, true, false, arith}
use ppvda.Utils.Ranges.{check, ipv4, ipv6, dotted}
use ppvda.Utils.Ranges.Exact.{IsReserved, check_iff}

metadata_blocked : check (ipv4 (dotted 169 254 169 254)) ≡ true
unfolding check
metadata_blocked = refl

public_passes : check (ipv4 (dotted 8 8 8 8)) ≡ false
unfolding check
public_passes = refl

loopback6_blocked : check (ipv6 1) ≡ true
unfolding check
loopback6_blocked = refl

check_iff_example :
    (check (ipv4 (dotted 172 31 255 255)) ≡ true) ↔ IsReserved (dotted 172 31 255 255)
check_iff_example = check_iff (dotted 172 31 255 255) (omega arith)
