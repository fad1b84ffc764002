-- ===== src/Utils/Ranges/Exact.antt =====
-- The blocked IPv4 addresses, by their bytes.
use ppvda.Base.{◌*◌, ◌+◌, ◌↔◌, ◌<◌, ◌≤◌, ℕ, ◌^◌, true, ◌⊎◌, arith, ◌≡◌}
use ppvda.Utils.Ranges.{ipv6, check, ipv4, dotted}

-- The ranges that RFC 6890 and its kin reserve, as first and last address.
abbrev pub IsReserved : ℕ → Type 0
IsReserved n =
    (n ≤ dotted 0 255 255 255)
    ⊎ ((dotted 10 0 0 0 ≤ n) × (n ≤ dotted 10 255 255 255))
    ⊎ ((dotted 100 64 0 0 ≤ n) × (n ≤ dotted 100 127 255 255))
    ⊎ ((dotted 127 0 0 0 ≤ n) × (n ≤ dotted 127 255 255 255))
    ⊎ ((dotted 169 254 0 0 ≤ n) × (n ≤ dotted 169 254 255 255))
    ⊎ ((dotted 172 16 0 0 ≤ n) × (n ≤ dotted 172 31 255 255))
    ⊎ ((dotted 192 0 0 0 ≤ n) × (n ≤ dotted 192 0 0 255))
    ⊎ ((dotted 192 0 2 0 ≤ n) × (n ≤ dotted 192 0 2 255))
    ⊎ ((dotted 192 88 99 0 ≤ n) × (n ≤ dotted 192 88 99 255))
    ⊎ ((dotted 192 168 0 0 ≤ n) × (n ≤ dotted 192 168 255 255))
    ⊎ ((dotted 198 18 0 0 ≤ n) × (n ≤ dotted 198 19 255 255))
    ⊎ ((dotted 198 51 100 0 ≤ n) × (n ≤ dotted 198 51 100 255))
    ⊎ ((dotted 203 0 113 0 ≤ n) × (n ≤ dotted 203 0 113 255))
    ⊎ (dotted 224 0 0 0 ≤ n)

check-IsReserved : (n : ℕ) → n < 2 ^ 32 → check (ipv4 n) ≡ true → IsReserved n
unfolding check
check-IsReserved n h c = ground arith

IsReserved-check : (n : ℕ) → n < 2 ^ 32 → IsReserved n → check (ipv4 n) ≡ true
unfolding check
IsReserved-check n h c = ground arith

-- The table of prefixes blocks an IPv4 address exactly if it lies in one of fourteen intervals of
-- reserved addresses, given by their first and last address (the last two rules join into one).
pub check_iff : (n : ℕ) → n < 2 ^ 32 → (check (ipv4 n) ≡ true) ↔ IsReserved n
check_iff n h = (check-IsReserved n h, IsReserved-check n h)

-- Writing an IPv4 address as IPv4-mapped IPv6 address, ::ffff:a.b.c.d, gets it past no IPv4 rule:
-- whatever is blocked in the one form is blocked in the other.
check_mapped :
    (n : ℕ) → n < 2 ^ 32 → check (ipv4 n) ≡ true → check (ipv6 (65_535 * 4_294_967_296 + n)) ≡ true
unfolding check
check_mapped n h c = ground arith
