-- ===== src/Net/Ipv4.antt =====
-- The tests of `std::net::Ipv4Addr`, on the address as a number of 32 bits.
use xira_net.Common.{ℕ, ◌-◌, ◌*◌, ◌/◌, ◌%◌, ◌^◌, Bool, ◌&&◌, ◌||◌, leb, eqb}

-- The bytes of the address, numbered from 0.
abbrev pub octet : ℕ → ℕ → ℕ
octet n i = n / 2 ^ (24 - 8 * i) % 256

unfoldable pub is_loopback : ℕ → Bool
is_loopback n = eqb (octet n 0) 127

unfoldable pub is_private : ℕ → Bool
is_private n =
    eqb (octet n 0) 10
    || (eqb (octet n 0) 172 && leb 16 (octet n 1) && leb (octet n 1) 31)
    || (eqb (octet n 0) 192 && eqb (octet n 1) 168)

unfoldable pub is_link_local : ℕ → Bool
is_link_local n = eqb (octet n 0) 169 && eqb (octet n 1) 254

unfoldable pub is_broadcast : ℕ → Bool
is_broadcast n = eqb n 4294967295

unfoldable pub is_documentation : ℕ → Bool
is_documentation n =
    (eqb (octet n 0) 192 && eqb (octet n 1) 0 && eqb (octet n 2) 2)
    || (eqb (octet n 0) 198 && eqb (octet n 1) 51 && eqb (octet n 2) 100)
    || (eqb (octet n 0) 203 && eqb (octet n 1) 0 && eqb (octet n 2) 113)

unfoldable pub is_unspecified : ℕ → Bool
is_unspecified n = eqb n 0

unfoldable pub is_multicast : ℕ → Bool
is_multicast n = leb 224 (octet n 0) && leb (octet n 0) 239
