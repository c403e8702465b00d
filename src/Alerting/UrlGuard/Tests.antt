-- ===== src/Alerting/UrlGuard/Tests.antt =====
-- Runs of the guard, and the theorems on concrete addresses.
use xira_net.Common.{
  ℕ, ◌≡◌, refl, inl, true, not, Option, none, some, List, [], ◌∷◌, arith, get, Text, codes,
  to_ascii_lowercase, any, ok, text_eq,
}
use xira_net.Net.Ipv4.{
  is_loopback, is_private, is_link_local, is_broadcast, is_documentation, is_unspecified,
  is_multicast,
}
use xira_net.Net.{IpAddr, v4}
use xira_net.Alerting.UrlGuard.{
  strict, upstream_only, from_octets, is_safe_ip, is_metadata_ip, is_ip_allowed, Url, PinnedUrl,
  pin_url, pin_outbound_url, pin_upstream_url, is_allowed_upstream_port, is_safe_v4,
  is_blocked_metadata_hostname, is_blocked_hostname_strict, first_pinned,
}
use xira_net.Alerting.UrlGuard.Ranges.{in_range, blocked_ranges, is_safe_v4-ranges}
use xira_net.Alerting.UrlGuard.Mapped.{mapped, is_ip_allowed-mapped}
use xira_net.Alerting.UrlGuard.Pinning.{IsPinned, pin_url-IsPinned}
use xira_net.Alerting.UrlGuard.PinCache.{PinCache, new, fresh, calls}
use xira_net.Alerting.UrlGuard.Caching.{AllGuarded, HasSchemePort, calls-AllGuarded}

abbrev public_dns : ℕ
public_dns = from_octets 8 8 8 8

abbrev metadata : ℕ
metadata = from_octets 169 254 169 254

-- A reserved address that the guard lets through.
reserved_test : is_safe_ip (v4 (from_octets 250 1 2 3)) ≡ true
unfolding is_safe_ip is_safe_v4 is_loopback is_private is_link_local is_broadcast is_documentation
    is_unspecified is_multicast
reserved_test = refl

-- The port of MySQL lies between 3000 and 3999.
mysql_test : is_allowed_upstream_port 3306 ≡ true
unfolding is_allowed_upstream_port
mysql_test = refl

is_safe_v4-ranges_example :
    is_safe_ip (v4 public_dns) ≡ not (any (in_range public_dns) blocked_ranges)
is_safe_v4-ranges_example = is_safe_v4-ranges public_dns (omega arith)

is_ip_allowed-mapped_example :
    (is_ip_allowed (mapped metadata) strict ≡ is_safe_ip (v4 metadata))
    × (is_ip_allowed (mapped metadata) upstream_only ≡ true)
is_ip_allowed-mapped_example = is_ip_allowed-mapped metadata (omega arith)

-- One URL, http://api:8080/, and no address literal.
abbrev api : Text
api = codes "http://api:8080/"

abbrev parse_api : Text → Option Url
parse_api raw = some (record {
  scheme = codes "http";
  host = some (codes "api");
  port = some 8080;
  port_or_known_default = some 8080;
})

abbrev no_literal : Text → Option IpAddr
no_literal host = none

abbrev resolve : Text → ℕ → Option (List IpAddr)
resolve host port = some (v4 public_dns ∷ v4 16843009 ∷ [])

abbrev pinned : PinnedUrl
pinned = record { url = api; host = codes "api"; ip = v4 public_dns; port = 8080 }

api_outbound : pin_url parse_api no_literal resolve api strict ≡ ok pinned
unfolding pin_url is_blocked_metadata_hostname to_ascii_lowercase is_blocked_hostname_strict
    first_pinned is_ip_allowed is_metadata_ip is_safe_ip is_safe_v4 is_loopback is_private
    is_link_local is_broadcast is_documentation is_unspecified is_multicast
api_outbound = refl

pin_outbound_url_test : pin_outbound_url parse_api no_literal resolve api ≡ ok pinned
unfolding pin_outbound_url
pin_outbound_url_test = api_outbound

pin_url-IsPinned_example : IsPinned parse_api no_literal resolve api strict pinned
pin_url-IsPinned_example =
    pin_url-IsPinned parse_api no_literal resolve api strict pinned api_outbound

api_upstream : pin_upstream_url parse_api no_literal resolve api ≡ ok pinned
unfolding pin_upstream_url pin_url is_blocked_metadata_hostname to_ascii_lowercase
    is_blocked_hostname_strict first_pinned is_ip_allowed is_metadata_ip is_allowed_upstream_port
api_upstream = refl

parse_api-HasSchemePort : HasSchemePort parse_api
unfolding HasSchemePort
parse_api-HasSchemePort raw u q e s p = inl (ground arith)

empty-AllGuarded : AllGuarded (new 60)
unfolding new AllGuarded get
empty-AllGuarded url p exp h = ground arith

-- The host resolves to the metadata service at the second call, which the cache answers.
abbrev rebound : Text → ℕ → Option (List IpAddr)
rebound host port = some (v4 metadata ∷ [])

calls-AllGuarded_example : AllGuarded (
    calls parse_api no_literal
      (record { lookup_host = resolve; now = 100; later = 101; url = api }
        ∷ record { lookup_host = rebound; now = 120; later = 121; url = api }
        ∷ [])
      (new 60))
calls-AllGuarded_example =
    calls-AllGuarded parse_api no_literal parse_api-HasSchemePort
      (record { lookup_host = resolve; now = 100; later = 101; url = api }
        ∷ record { lookup_host = rebound; now = 120; later = 121; url = api }
        ∷ [])
      (new 60) empty-AllGuarded

empty-stale : fresh 100 (get api (PinCache.inner (new 60))) ≡ none
unfolding fresh new get
empty-stale = refl
