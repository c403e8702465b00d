-- ===== src/Middleware/RateLimit.antt =====
-- src/middleware/rate_limit.rs: the per-client rate limiter. A call holds the lock of its bucket
-- throughout, so it is one step; its time, in nanoseconds, is an argument. Parsing and printing an
-- IP address is that of `std::net`, and stands as two functions.
pub mod Cidr
pub mod ClientIp
pub mod Window
mod Tests
use mathlib.Core.List.{reverse}
use xira_net.Common.{
  ℕ, ◌+◌, ◌-◌, ◌*◌, ◌/◌, ◌%◌, max, Bool, true, false, ◌||◌, Option, none, some, List, [], ◌∷◌, map,
  Dict, get, insert, retain_values, Text, codes, split, trim, split_once, parse_uint, any, is_empty,
  ltb, eqb, if◌then◌else◌, text_eq,
}
use xira_net.Net.{IpAddr, v4, v6, clear_low}

pub record CidrEntry : Type 0 where
  pub network : IpAddr
  pub prefix : ℕ  -- u8

abbrev pub max_prefix : IpAddr → ℕ
max_prefix (v4 _) = 32
max_prefix (v6 _) = 128

-- The `match` of `CidrEntry::contains`.
same_range : ℕ → IpAddr → IpAddr → Bool
same_range p (v4 net) (v4 addr) = eqb p 0 || eqb (clear_low net (32 - p)) (clear_low addr (32 - p))
same_range p (v6 net) (v6 addr) =
    eqb p 0 || eqb (clear_low net (128 - p)) (clear_low addr (128 - p))
same_range p (v4 net) (v6 addr) = false
same_range p (v6 net) (v4 addr) = false

-- `CidrEntry::contains`.
unfoldable pub contains_ip : CidrEntry → IpAddr → Bool
unfolding same_range
contains_ip c ip = same_range c.prefix c.network ip

pub record RateLimitEntry : Type 0 where
  pub count : ℕ  -- u32
  pub window_start : ℕ

pub record Inner : Type 0 where
  pub max_requests : ℕ  -- u32
  pub window_secs : ℕ  -- u64
  pub trust_xff : Bool
  pub trusted_proxies : List CidrEntry
  pub limits : Dict Text RateLimitEntry

-- What the limiter reads of a request: its peer, and its `x-forwarded-for` if that is plain text.
pub record Request : Type 0 where
  pub peer : Option IpAddr
  pub x_forwarded_for : Option Text

unfoldable pub is_trusted : List CidrEntry → IpAddr → Bool
is_trusted proxies ip = any (λ c. contains_ip c ip) proxies

-- How the walk along the hops ends.
pub data Walk : Type 0 where
  untrusted : IpAddr → Walk
  malformed : Walk
  exhausted : Walk

module _ (parse_ip : Text → Option IpAddr) where
  parse_range : Text → Text → Option CidrEntry
  parse_range addr_part prefix_part = elim (parse_ip addr_part) [
    | none ↦ none
    | some network ↦ elim (parse_uint 255 prefix_part) [
      | none ↦ none
      | some prefix ↦
          if ltb (max_prefix network) prefix
          then none
          else some (record { network = network; prefix = prefix })
    ]
  ]

  parse_trimmed : Text → Option CidrEntry
  parse_trimmed s = elim (split_once b'/' s) [
    | some (addr_part, prefix_part) ↦ parse_range addr_part prefix_part
    | none ↦ elim (parse_ip s) [
      | none ↦ none
      | some network ↦ some (record { network = network; prefix = max_prefix network })
    ]
  ]

  -- `CidrEntry::parse`.
  unfoldable pub parse : Text → Option CidrEntry
  unfolding parse_range parse_trimmed
  parse s = if is_empty (trim s) then none else parse_trimmed (trim s)

  unfoldable pub parse_proxies : List Text → List CidrEntry
  parse_proxies [] = []
  parse_proxies (s ∷ list) = elim (parse s) [
    | none ↦ parse_proxies list
    | some c ↦ c ∷ parse_proxies list
  ]

  unfoldable pub with_trusted_proxies : ℕ → ℕ → Bool → List Text → Inner
  with_trusted_proxies max_requests window_secs trust_xff proxies = record {
    max_requests = max max_requests 1;
    window_secs = max window_secs 1;
    trust_xff = trust_xff;
    trusted_proxies = parse_proxies proxies;
    limits = [];
  }

  unfoldable pub set_trusted_proxies : Inner → List Text → Inner
  set_trusted_proxies r list = record r { trusted_proxies = parse_proxies list }

  -- The loop over the hops, the last hop first.
  unfoldable pub walk : List CidrEntry → List Text → Walk
  walk proxies [] = exhausted
  walk proxies (hop ∷ hops) = if is_empty hop then walk proxies hops else elim (parse_ip hop) [
    | none ↦ malformed
    | some ip ↦ if is_trusted proxies ip then walk proxies hops else untrusted ip
  ]

unfoldable pub set_limits : Inner → ℕ → ℕ → Inner
set_limits r max_requests window_secs = record r {
  max_requests = max max_requests 1;
  window_secs = max window_secs 1;
}

unfoldable pub set_trust_xff : Inner → Bool → Inner
set_trust_xff r value = record r { trust_xff = value }

-- The first entry of a list of hops, if it is not empty after trimming.
abbrev first_hop : List Text → Text → Text
first_hop [] fallback = fallback
first_hop (hop ∷ hops) fallback = if is_empty (trim hop) then fallback else trim hop

module _ (parse_ip : Text → Option IpAddr) (show_ip : IpAddr → Text) where
  -- What the end of the walk makes of the hops.
  client_of : Walk → List Text → IpAddr → Text
  client_of (untrusted ip) hops peer = show_ip ip
  client_of malformed hops peer = show_ip peer
  client_of exhausted hops peer = first_hop hops (show_ip peer)

  -- The peer is a trusted proxy.
  behind_proxy : List CidrEntry → IpAddr → Option Text → Text
  unfolding client_of
  behind_proxy proxies peer none = show_ip peer
  behind_proxy proxies peer (some xff) =
      let hops = map trim (split b',' xff) in
      client_of (walk parse_ip proxies (reverse hops)) hops peer

  abbrev peer_or_unknown : Option IpAddr → Text
  peer_or_unknown none = codes "unknown"
  peer_or_unknown (some ip) = show_ip ip

  with_proxies : List CidrEntry → Option IpAddr → Option Text → Text
  unfolding behind_proxy
  with_proxies proxies none xff = codes "unknown"
  with_proxies proxies (some peer) xff =
      if is_trusted proxies peer then behind_proxy proxies peer xff else show_ip peer

  -- No proxy is configured: the header counts only under the legacy flag.
  without_proxies : Bool → Option IpAddr → Option Text → Text
  without_proxies false peer xff = peer_or_unknown peer
  without_proxies true peer none = peer_or_unknown peer
  without_proxies true peer (some xff) = first_hop (split b',' xff) (peer_or_unknown peer)

  unfoldable pub client_ip : Inner → Request → Text
  unfolding with_proxies without_proxies
  client_ip r req =
      if is_empty r.trusted_proxies
      then without_proxies r.trust_xff req.peer req.x_forwarded_for
      else with_proxies r.trusted_proxies req.peer req.x_forwarded_for

-- `Retry-After`, in seconds.
pub data Verdict : Type 0 where
  passes : Verdict
  limited : ℕ → Verdict

abbrev pub nanos : ℕ → ℕ
nanos secs = secs * 1000000000

-- A bucket whose window is over starts a new one.
unfoldable pub roll : ℕ → ℕ → RateLimitEntry → RateLimitEntry
roll window now e =
    if ltb window (now - e.window_start) then record { count = 0; window_start = now } else e

unfoldable pub count_in : ℕ → ℕ → ℕ → RateLimitEntry → RateLimitEntry × Verdict
count_in most window now e = (
  record e { count = (e.count + 1) % 4294967296 },
  (if ltb most ((e.count + 1) % 4294967296)
      then limited ((window - (now - e.window_start)) / 1000000000)
      else passes),
)

-- The work of `call` on a client's bucket: `max_requests` and the window, in nanoseconds, are loaded
-- once.
unfoldable pub count_request : ℕ → ℕ → ℕ → RateLimitEntry → RateLimitEntry × Verdict
count_request most window now e = count_in most window now (roll window now e)

abbrev pub or_new : ℕ → Option RateLimitEntry → RateLimitEntry
or_new now none = record { count = 0; window_start = now }
or_new now (some e) = e

-- `call`, up to the inner service, for the client's address.
unfoldable pub call : Inner → ℕ → Text → Inner × Verdict
call r now ip =
    let (e, verdict) =
      count_request (max r.max_requests 1) (nanos (max r.window_secs 1)) now
        (or_new now (get ip r.limits)) in
    (record r { limits = insert ip e r.limits }, verdict)

-- One round of the background task of `spawn_evictor`.
unfoldable pub evict : Inner → ℕ → Inner
evict r now = record r {
  limits =
      retain_values (λ e. ltb (now - e.window_start) (nanos (max r.window_secs 1 * 2))) r.limits;
}
