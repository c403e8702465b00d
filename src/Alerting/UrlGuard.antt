-- ===== src/Alerting/UrlGuard.antt =====
-- src/alerting/url_guard.rs: which addresses an outbound call may reach, and the cache of pinned
-- addresses. Parsing a URL (`reqwest`), resolving a host (`tokio`) and parsing an IP address stand as
-- functions; the texts in errors are left out. Times are in seconds.
pub mod Ranges
pub mod Mapped
pub mod Pinning
pub mod Validation
pub mod PinCache
pub mod Caching
mod Tests
use xira_net.Common.{
  ℕ, ◌+◌, ◌-◌, ◌*◌, ◌/◌, ◌%◌, ◌^◌, Bool, true, false, not, ◌&&◌, ◌||◌, Option, none, some, List, [],
  ◌∷◌, Text, codes, to_ascii_lowercase, ◌==◌, any, Result, ◌>>=◌, leb, eqb, if◌then◌else◌, is_some,
  ok, err, text_eq,
}
use xira_net.Net.{IpAddr, v4, v6}
use xira_net.Net.Ipv4
use xira_net.Net.Ipv4.{octet}

pub data UrlGuardError : Type 0 where
  invalid bad_scheme missing_host dns_error forbidden : UrlGuardError

pub data GuardLevel : Type 0 where
  strict upstream_only : GuardLevel

-- The segments of an IPv6 address, numbered from 0.
abbrev pub segment : ℕ → ℕ → ℕ
segment n i = n / 2 ^ (112 - 16 * i) % 65536

-- `Ipv4Addr::new`.
abbrev pub from_octets : ℕ → ℕ → ℕ → ℕ → ℕ
from_octets a b c d = a * 16777216 + b * 65536 + c * 256 + d

unfoldable pub is_safe_v4 : ℕ → Bool
is_safe_v4 n =
    if Ipv4.is_loopback n
      || Ipv4.is_private n
      || Ipv4.is_link_local n
      || Ipv4.is_broadcast n
      || Ipv4.is_documentation n
      || Ipv4.is_unspecified n
      || Ipv4.is_multicast n
    then false
    else if eqb (octet n 0) 100 && (leb 64 (octet n 1) && leb (octet n 1) 127)
    then false
    else if eqb (octet n 0) 0
    then false
    else true

-- An IPv4 address mapped into IPv6: five segments of 0 and one of ffff.
abbrev pub is_mapped : ℕ → Bool
is_mapped n =
    eqb (segment n 0) 0
    && eqb (segment n 1) 0
    && eqb (segment n 2) 0
    && eqb (segment n 3) 0
    && eqb (segment n 4) 0
    && eqb (segment n 5) 65535

-- `segs[0] & 0xfe00` and `segs[0] & 0xffc0` keep the bits above the 9 and the 6 lowest.
unfoldable pub is_safe_v6 : ℕ → Bool
is_safe_v6 n =
    if eqb n 1 || eqb n 0 || eqb (n / 2 ^ 120) 255
    then false
    else if eqb (segment n 0 / 512 * 512) 64512
    then false
    else if eqb (segment n 0 / 64 * 64) 65152
    then false
    else if is_mapped n
    then is_safe_v4 (
        from_octets (segment n 6 / 256) (segment n 6 % 256) (segment n 7 / 256) (segment n 7 % 256))
    else true

unfoldable pub is_safe_ip : IpAddr → Bool
is_safe_ip (v4 n) = is_safe_v4 n
is_safe_ip (v6 n) = is_safe_v6 n

unfoldable pub is_metadata_ip : IpAddr → Bool
is_metadata_ip (v4 n) =
    eqb (octet n 0) 169 && eqb (octet n 1) 254 && eqb (octet n 2) 169 && eqb (octet n 3) 254
is_metadata_ip (v6 n) = eqb (segment n 0) 64768 && eqb (segment n 1) 3778

unfoldable pub is_ip_allowed : IpAddr → GuardLevel → Bool
is_ip_allowed ip upstream_only = if is_metadata_ip ip then false else true
is_ip_allowed ip strict = if is_metadata_ip ip then false else is_safe_ip ip

unfoldable pub is_allowed_upstream_port : ℕ → Bool
is_allowed_upstream_port p =
    eqb p 80
    || eqb p 443
    || (leb 8080 p && leb p 8090)
    || (leb 3000 p && leb p 3999)
    || (leb 9000 p && leb p 9999)
    || eqb p 5000
    || eqb p 5001
    || eqb p 7000
    || eqb p 7001
    || (leb 8000 p && leb p 8079)
    || eqb p 8443

unfoldable pub is_blocked_metadata_hostname : Text → Bool
is_blocked_metadata_hostname host =
    host == codes "metadata.google.internal"
    || host == codes "metadata.goog"
    || host == codes "instance-data"
    || host == codes "metadata"

unfoldable pub is_blocked_hostname_strict : Text → Bool
is_blocked_hostname_strict host = host == codes "localhost"

-- What the code reads of a parsed URL: its `port()` is `none` for the scheme's own port.
pub record Url : Type 0 where
  pub scheme : Text
  pub host : Option Text
  pub port : Option ℕ
  pub port_or_known_default : Option ℕ

pub record PinnedUrl : Type 0 where
  pub url : Text
  pub host : Text
  pub ip : IpAddr
  pub port : ℕ

abbrev pub or_error {ℓ} : {A : Type ℓ} → Option A → UrlGuardError → Result A UrlGuardError
or_error none e = err e
or_error (some a) e = ok a

abbrev pub guard : Bool → UrlGuardError → Result (Unit {0}) UrlGuardError
guard true e = ok tt
guard false e = err e

abbrev pub is_http : Text → Bool
is_http scheme = scheme == codes "http" || scheme == codes "https"

abbrev pub host_blocked : GuardLevel → Text → Bool
host_blocked upstream_only host = is_blocked_metadata_hostname host
host_blocked strict host = is_blocked_metadata_hostname host || is_blocked_hostname_strict host

-- The loop over the resolved addresses: all are tested, and the first is pinned.
unfoldable pub first_pinned :
    GuardLevel → Option IpAddr → List IpAddr → Result (Option IpAddr) UrlGuardError
first_pinned level pinned [] = ok pinned
first_pinned level pinned (ip ∷ ips) =
    let rest = first_pinned level (if is_some pinned then pinned else some ip) ips in
    if is_ip_allowed ip level then rest else err forbidden

-- The loop of `validate_url`, which remembers whether there was an address.
unfoldable pub all_allowed : GuardLevel → Bool → List IpAddr → Result (Unit {0}) UrlGuardError
all_allowed level any [] = guard any dns_error
all_allowed level any (ip ∷ ips) =
    let rest = all_allowed level true ips in if is_ip_allowed ip level then rest else err forbidden

-- `unwrap_or(443)`.
unfoldable pub port_or_443 : Option ℕ → ℕ
port_or_443 none = 443
port_or_443 (some p) = p

unfoldable pub port_allowed : Option ℕ → Bool
port_allowed none = true
port_allowed (some p) = is_allowed_upstream_port p

module _ (parse_url : Text → Option Url) (parse_ip : Text → Option IpAddr)
    (lookup_host : Text → ℕ → Option (List IpAddr)) where
  unfoldable pub pin_host :
      Text → Text → ℕ → GuardLevel → Option IpAddr → Result PinnedUrl UrlGuardError
  pin_host raw host port level (some ip) = do
    _ ← guard (is_ip_allowed ip level) forbidden
    ok (record { url = raw; host = host; ip = ip; port = port })
  pin_host raw host port level none = do
    addrs ← or_error (lookup_host host port) dns_error
    pinned ← first_pinned level none addrs
    ip ← or_error pinned dns_error
    ok (record { url = raw; host = host; ip = ip; port = port })

  unfoldable pub pin_url : Text → GuardLevel → Result PinnedUrl UrlGuardError
  unfolding pin_host
  pin_url raw level = do
    url ← or_error (parse_url raw) invalid
    _ ← guard (is_http url.scheme) bad_scheme
    host ← or_error url.host missing_host
    _ ← guard (not (host_blocked level (to_ascii_lowercase host))) forbidden
    port ← or_error url.port_or_known_default missing_host
    pin_host raw host port level (parse_ip host)

  unfoldable pub pin_outbound_url : Text → Result PinnedUrl UrlGuardError
  pin_outbound_url raw = pin_url raw strict

  unfoldable pub pin_upstream_url : Text → Result PinnedUrl UrlGuardError
  unfolding port_allowed
  pin_upstream_url raw = do
    url ← or_error (parse_url raw) invalid
    _ ← guard (port_allowed url.port) forbidden
    pin_url raw upstream_only

  unfoldable pub validate_host :
      Url → Text → GuardLevel → Option IpAddr → Result (Unit {0}) UrlGuardError
  unfolding port_or_443
  validate_host url host level (some ip) = guard (is_ip_allowed ip level) forbidden
  validate_host url host level none = do
    addrs ← or_error (lookup_host host (port_or_443 url.port_or_known_default)) dns_error
    all_allowed level false addrs

  unfoldable pub validate_url : Text → GuardLevel → Result (Unit {0}) UrlGuardError
  unfolding validate_host
  validate_url raw level = do
    url ← or_error (parse_url raw) invalid
    _ ← guard (is_http url.scheme) bad_scheme
    host ← or_error url.host missing_host
    _ ← guard (not (host_blocked level (to_ascii_lowercase host))) forbidden
    validate_host url host level (parse_ip host)

  unfoldable pub validate_outbound_url : Text → Result (Unit {0}) UrlGuardError
  validate_outbound_url raw = validate_url raw strict

  unfoldable pub validate_upstream_url : Text → Result (Unit {0}) UrlGuardError
  unfolding port_allowed
  validate_upstream_url raw = do
    url ← or_error (parse_url raw) invalid
    _ ← guard (port_allowed url.port) forbidden
    validate_url raw upstream_only
