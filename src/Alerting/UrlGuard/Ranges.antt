-- ===== src/Alerting/UrlGuard/Ranges.antt =====
-- Which addresses the guard lets through, against lists of ranges.
use xira_net.Common.{ℕ, ◌^◌, ◌<◌, ◌≡◌, Bool, not, ◌&&◌, ◌||◌, List, [], ◌∷◌, arith, any, leb, eqb}
use xira_net.Net.{v4}
use xira_net.Net.Ipv4
use xira_net.Net.Ipv4.{octet}
use xira_net.Middleware.RateLimit.{CidrEntry, contains_ip}
use xira_net.Alerting.UrlGuard.{from_octets, is_safe_v4, is_safe_ip}

abbrev pub range : ℕ → ℕ → ℕ → ℕ → ℕ → CidrEntry
range a b c d prefix = record { network = v4 (from_octets a b c d); prefix = prefix }

abbrev pub in_range : ℕ → CidrEntry → Bool
in_range n c = contains_ip c (v4 n)

loopback-range : (n : ℕ) → n < 2 ^ 32 → Ipv4.is_loopback n ≡ in_range n (range 127 0 0 0 8)
unfolding Ipv4.is_loopback contains_ip
loopback-range n h = ground arith

private-range :
    (n : ℕ)
    → n < 2 ^ 32
    → Ipv4.is_private n ≡ (
        in_range n (range 10 0 0 0 8)
        || in_range n (range 172 16 0 0 12)
        || in_range n (range 192 168 0 0 16))
unfolding Ipv4.is_private contains_ip
private-range n h = ground arith

link_local-range : (n : ℕ) → n < 2 ^ 32 → Ipv4.is_link_local n ≡ in_range n (range 169 254 0 0 16)
unfolding Ipv4.is_link_local contains_ip
link_local-range n h = ground arith

broadcast-range : (n : ℕ) → n < 2 ^ 32 → Ipv4.is_broadcast n ≡ in_range n (range 255 255 255 255 32)
unfolding Ipv4.is_broadcast contains_ip
broadcast-range n h = ground arith

documentation-range :
    (n : ℕ)
    → n < 2 ^ 32
    → Ipv4.is_documentation n ≡ (
        in_range n (range 192 0 2 0 24)
        || in_range n (range 198 51 100 0 24)
        || in_range n (range 203 0 113 0 24))
unfolding Ipv4.is_documentation contains_ip
documentation-range n h = ground arith

multicast-range : (n : ℕ) → n < 2 ^ 32 → Ipv4.is_multicast n ≡ in_range n (range 224 0 0 0 4)
unfolding Ipv4.is_multicast contains_ip
multicast-range n h = ground arith

shared-range :
    (n : ℕ)
    → n < 2 ^ 32
    → (eqb (octet n 0) 100 && (leb 64 (octet n 1) && leb (octet n 1) 127))
      ≡ in_range n (range 100 64 0 0 10)
unfolding contains_ip
shared-range n h = ground arith

this_network-range :
    (n : ℕ)
    → n < 2 ^ 32
    → (Ipv4.is_unspecified n || eqb (octet n 0) 0) ≡ in_range n (range 0 0 0 0 8)
unfolding Ipv4.is_unspecified contains_ip
this_network-range n h = ground arith

-- The ranges that the guard blocks in strict mode.
abbrev pub blocked_ranges : List CidrEntry
blocked_ranges =
    range 0 0 0 0 8
    ∷ range 10 0 0 0 8
    ∷ range 100 64 0 0 10
    ∷ range 127 0 0 0 8
    ∷ range 169 254 0 0 16
    ∷ range 172 16 0 0 12
    ∷ range 192 0 2 0 24
    ∷ range 192 168 0 0 16
    ∷ range 198 51 100 0 24
    ∷ range 203 0 113 0 24
    ∷ range 224 0 0 0 4
    ∷ range 255 255 255 255 32
    ∷ []

-- An IPv4 address, a number below 2^32, is safe exactly when it lies in none of twelve ranges,
-- among which the reserved range 240.0.0.0/4 is not.
pub is_safe_v4-ranges :
    (n : ℕ) → n < 2 ^ 32 → is_safe_ip (v4 n) ≡ not (any (in_range n) blocked_ranges)
unfolding is_safe_ip is_safe_v4
is_safe_v4-ranges n h =
    let lo = loopback-range n h in
    let pr = private-range n h in
    let ll = link_local-range n h in
    let br = broadcast-range n h in
    let dc = documentation-range n h in
    let mu = multicast-range n h in
    let sh = shared-range n h in let th = this_network-range n h in ground arith
