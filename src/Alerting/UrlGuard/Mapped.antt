-- ===== src/Alerting/UrlGuard/Mapped.antt =====
-- The IPv4 addresses mapped into IPv6, ::ffff:a.b.c.d.
use xira_net.Common.{ℕ, ◌+◌, ◌*◌, ◌/◌, ◌%◌, ◌^◌, ◌<◌, ◌≡◌, true, arith}
use xira_net.Net.{IpAddr, v4, v6}
use xira_net.Alerting.UrlGuard.{
  strict, upstream_only, segment, from_octets, is_safe_v6, is_safe_ip, is_metadata_ip,
  is_ip_allowed,
}

abbrev pub mapped : ℕ → IpAddr
mapped n = v6 (65535 * 2 ^ 32 + n)

-- The segments of a mapped address.
mapped-segments :
    (n : ℕ)
    → n < 2 ^ 32
    → (segment (65535 * 2 ^ 32 + n) 0 ≡ 0)
      × (segment (65535 * 2 ^ 32 + n) 1 ≡ 0)
      × (segment (65535 * 2 ^ 32 + n) 2 ≡ 0)
      × (segment (65535 * 2 ^ 32 + n) 3 ≡ 0)
      × (segment (65535 * 2 ^ 32 + n) 4 ≡ 0)
      × (segment (65535 * 2 ^ 32 + n) 5 ≡ 65535)
mapped-segments n h = (omega arith, omega arith, omega arith, omega arith, omega arith, omega arith)

mapped-octets :
    (n : ℕ)
    → n < 2 ^ 32
    → from_octets
        (segment (65535 * 2 ^ 32 + n) 6 / 256)
        (segment (65535 * 2 ^ 32 + n) 6 % 256)
        (segment (65535 * 2 ^ 32 + n) 7 / 256)
        (segment (65535 * 2 ^ 32 + n) 7 % 256)
      ≡ n
mapped-octets n h = omega arith

-- In strict mode an IPv4 address (below 2^32) mapped into IPv6 is let through exactly when the
-- IPv4 address is safe; in upstream mode every mapped address is.
pub is_ip_allowed-mapped :
    (n : ℕ)
    → n < 2 ^ 32
    → (is_ip_allowed (mapped n) strict ≡ is_safe_ip (v4 n))
      × (is_ip_allowed (mapped n) upstream_only ≡ true)
unfolding is_ip_allowed is_metadata_ip is_safe_ip is_safe_v6
is_ip_allowed-mapped n h = let s = mapped-segments n h in let o = mapped-octets n h in ground arith
