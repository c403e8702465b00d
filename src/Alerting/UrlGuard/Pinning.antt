-- ===== src/Alerting/UrlGuard/Pinning.antt =====
-- What a pinned or validated URL is known to be.
use xira_net.Common.{
  ℕ, ◌≡◌, refl, ◌≢◌, ◌↔◌, ◌⊎◌, inr, Bool, true, false, not, Option, none, some, List, [], ◌∷◌,
  arith, Text, to_ascii_lowercase, any, Result, ◌>>=◌, bind-ok, ok,
}
use xira_net.Alerting.UrlGuard.{
  UrlGuardError, GuardLevel, invalid, bad_scheme, missing_host, forbidden, dns_error, is_ip_allowed,
  Url, PinnedUrl, first_pinned, all_allowed, pin_host, pin_url, or_error, guard, is_http,
  host_blocked,
}
use xira_net.Net.{IpAddr}

-- All addresses of a list are allowed at a level.
unfoldable pub AllAllowed : GuardLevel → List IpAddr → Type 0
AllAllowed level [] = Unit
AllAllowed level (ip ∷ ips) = (is_ip_allowed ip level ≡ true) × AllAllowed level ips

unfoldable pub first_or : Option IpAddr → List IpAddr → Option IpAddr
first_or (some ip) ips = some ip
first_or none [] = none
first_or none (ip ∷ ips) = some ip

-- The loop succeeds exactly when all addresses are allowed, and then pins the first.
pub first_pinned_iff :
    (level : GuardLevel) (pinned : Option IpAddr) (ips : List IpAddr) (r : Option IpAddr)
    → (first_pinned level pinned ips ≡ ok r) ↔ (AllAllowed level ips × (r ≡ first_or pinned ips))
unfolding first_pinned AllAllowed first_or
first_pinned_iff level pinned [] r = ground arith
first_pinned_iff level pinned (ip ∷ ips) r =
    ground (arith, first_pinned_iff level pinned ips r, first_pinned_iff level (some ip) ips r)

pub all_allowed_iff :
    (level : GuardLevel) (any : Bool) (ips : List IpAddr)
    → (all_allowed level any ips ≡ ok tt)
      ↔ (AllAllowed level ips × ((any ≡ true) ⊎ (first_or none ips ≢ none)))
unfolding all_allowed AllAllowed first_or
all_allowed_iff level any [] = ground arith
all_allowed_iff level any (ip ∷ ips) = ground (arith, all_allowed_iff level true ips)

-- What a `?` that went on has seen.
pub or_error-ok :
    {A B : Type 0} (o : Option A) (e : UrlGuardError) (f : A → Result B UrlGuardError) (r : B)
    → (or_error o e >>= f) ≡ ok r
    → (a : A) × (o ≡ some a) × (f a ≡ ok r)
or_error-ok none e f r h = ground arith
or_error-ok (some a) e f r h = (a, refl, h)

pub guard-ok :
    {B : Type 0} (b : Bool) (e : UrlGuardError) (f : Unit {0} → Result B UrlGuardError) (r : B)
    → (guard b e >>= f) ≡ ok r
    → (b ≡ true) × (f tt ≡ ok r)
guard-ok true e f r h = (refl, h)
guard-ok false e f r h = ground arith

ok-inj : {A E : Type 0} {a b : A} → ◌≡◌ {A = Result A E} (ok a) (ok b) → a ≡ b
ok-inj h = ground arith

pub not-true : (b : Bool) → not b ≡ true → b ≡ false
not-true b h = ground arith

first_or-allowed :
    (level : GuardLevel) (ips : List IpAddr) (ip : IpAddr)
    → AllAllowed level ips
    → first_or none ips ≡ some ip
    → is_ip_allowed ip level ≡ true
unfolding AllAllowed first_or
first_or-allowed level [] ip a h = ground arith
first_or-allowed level (j ∷ ips) ip a h = ground arith

module _ (parse_url : Text → Option Url) (parse_ip : Text → Option IpAddr)
    (lookup_host : Text → ℕ → Option (List IpAddr)) where
  -- The address is the host itself, or the first of the host's addresses, which are all allowed.
  unfoldable pub FromHost : GuardLevel → PinnedUrl → Type 0
  FromHost level p =
      (parse_ip p.host ≡ some p.ip)
      ⊎ ((parse_ip p.host ≡ none)
          × ((addrs : List IpAddr) × (lookup_host p.host p.port ≡ some addrs)
              × AllAllowed level addrs
              × (first_or none addrs ≡ some p.ip)))

  -- What a pinned URL promises.
  unfoldable pub IsPinned : Text → GuardLevel → PinnedUrl → Type 0
  IsPinned raw level p =
      (p.url ≡ raw)
      × (is_ip_allowed p.ip level ≡ true)
      × (host_blocked level (to_ascii_lowercase p.host) ≡ false)
      × FromHost level p
      × ((u : Url) × (parse_url raw ≡ some u)
          × (is_http u.scheme ≡ true)
          × (u.host ≡ some p.host)
          × (u.port_or_known_default ≡ some p.port))

  pin_host_sound :
      (raw host : Text) (port : ℕ) (level : GuardLevel) (o : Option IpAddr) (p : PinnedUrl)
      → parse_ip host ≡ o
      → pin_host parse_url parse_ip lookup_host raw host port level o ≡ ok p
      → (p.url ≡ raw)
        × (p.host ≡ host)
        × (p.port ≡ port)
        × (is_ip_allowed p.ip level ≡ true)
        × FromHost level p
  unfolding pin_host FromHost
  pin_host_sound raw host port level (some ip) p e h = ground arith
  pin_host_sound raw host port level none p e h =
      let (addrs, l, h1) = or_error-ok (lookup_host host port) dns_error _ p h in
      let (pinned, l2, h2) = bind-ok (first_pinned level none addrs) _ p h1 in
      let (ip, l3, h3) = or_error-ok pinned dns_error _ p h2 in
      let facts = (first_pinned_iff level none addrs pinned).0 l2 in
      let eq = ok-inj h3 in
      let a = first_or-allowed level addrs ip facts.0 (ground arith) in
      (cc, cc, cc, cc, inr (cc, (addrs, cc, facts.0, cc)))

  -- A pinned URL keeps its text, its address is allowed at the level, its host is not blocked,
  -- its address is the host itself or the first of the addresses the host resolved to, which
  -- are all allowed, and the URL has scheme http or https and this host and port.
  pub pin_url-IsPinned :
      (raw : Text) (level : GuardLevel) (p : PinnedUrl)
      → pin_url parse_url parse_ip lookup_host raw level ≡ ok p
      → IsPinned raw level p
  unfolding pin_url IsPinned
  pin_url-IsPinned raw level p h =
      let (u, e, h1) = or_error-ok (parse_url raw) invalid _ p h in
      let (e2, h2) = guard-ok (is_http u.scheme) bad_scheme _ p h1 in
      let (host, e3, h3) = or_error-ok u.host missing_host _ p h2 in
      let (e4, h4) =
        guard-ok (not (host_blocked level (to_ascii_lowercase host))) forbidden _ p h3 in
      let (port, e5, h5) = or_error-ok u.port_or_known_default missing_host _ p h4 in
      let (r, hh, pp, a, f) = pin_host_sound raw host port level (parse_ip host) p refl h5 in
      let nb = not-true (host_blocked level (to_ascii_lowercase host)) e4 in
      (r, a, cc, f, (u, e, e2, cc, cc))
