-- ===== src/Middleware/RateLimit/Tests.antt =====
-- Runs of the limiter, and the theorems about it at concrete requests.
use xira_net.Common.{
  ◌+◌, ◌%◌, ◌≤◌, ◌≡◌, refl, ◌↔◌, true, false, Option, none, some, [], ◌∷◌, ◌++◌, arith, Text, codes,
  split, trim, split_once, parse_uint, leb, if◌then◌else◌, text_eq,
}
use xira_net.Net.{IpAddr, v4, v6}
use xira_net.Middleware.RateLimit.{
  CidrEntry, RateLimitEntry, Inner, contains_ip, parse, is_trusted, walk, client_ip,
}
use xira_net.Middleware.RateLimit.Cidr.{SameNetwork, contains_ip_iff}
use xira_net.Middleware.RateLimit.ClientIp.{client_ip_prepend}
use xira_net.Middleware.RateLimit.Window.{passed, passed-le-double}

-- A toy notation of addresses: one letter, for 10.0.0.0 plus its code, or 203.0.113.0 plus it if it
-- is a capital.
toy_parse : Text → Option IpAddr
toy_parse [] = none
toy_parse (c ∷ s) =
    if leb b'a' c
    then some (v4 (167772160 + c))
    else if leb b'A' c
    then some (v4 (3405803776 + c))
    else none

toy_show : IpAddr → Text
toy_show (v4 n) = n % 256 ∷ []
toy_show (v6 n) = n % 256 ∷ []

abbrev ten : CidrEntry
ten = record { network = v4 167772160; prefix = 8 }

abbrev limiter : Inner
limiter = record {
  max_requests = 2;
  window_secs = 60;
  trust_xff = false;
  trusted_proxies = ten ∷ [];
  limits = [];
}

parse_test :
    (parse toy_parse (codes " a/8 ") ≡ some (record { network = v4 167772257; prefix = 8 }))
    × (parse toy_parse (codes "a/33") ≡ none)
    × (parse toy_parse (codes "a") ≡ some (record { network = v4 167772257; prefix = 32 }))
unfolding parse toy_parse trim split_once parse_uint
parse_test = (refl, refl, refl)

-- The hop next to the trusted ones is the client, and an untrusted peer's header is ignored.
client_test :
    (client_ip toy_parse toy_show limiter
        (record { peer = some (v4 167772200); x_forwarded_for = some (codes "B, A, a") })
      ≡ codes "A")
    × (client_ip toy_parse toy_show limiter
          (record { peer = some (v4 3405803842); x_forwarded_for = some (codes "a") })
        ≡ codes "B")
unfolding client_ip toy_parse toy_show walk is_trusted contains_ip split trim
client_test = (refl, refl)

contains_ip_iff_example :
    (contains_ip ten (v4 167772161) ≡ true) ↔ SameNetwork 8 ten.network (v4 167772161)
contains_ip_iff_example = contains_ip_iff ten (v4 167772161) (omega arith) (omega arith)

client_ip_prepend_example :
    client_ip toy_parse toy_show limiter
      (record { peer = some (v4 167772200); x_forwarded_for = some (codes "Z," ++ codes "A,a") })
    ≡ client_ip toy_parse toy_show limiter
        (record { peer = some (v4 167772200); x_forwarded_for = some (codes "A,a") })
unfolding toy_parse walk is_trusted contains_ip split trim
client_ip_prepend_example =
    client_ip_prepend toy_parse toy_show limiter (some (v4 167772200)) (codes "Z") (codes "A,a")
      refl (λ e. cc)

abbrev half_full : RateLimitEntry
half_full = record { count = 1; window_start = 100 }

passed-le-double_example : passed 2 60 half_full (150 ∷ 161 ∷ 170 ∷ 180 ∷ []) ≤ 3
passed-le-double_example =
    passed-le-double 2 60 150 half_full (150 ∷ 161 ∷ 170 ∷ 180 ∷ []) (omega arith) (omega arith)

abbrev busy : Inner
busy = record limiter { limits = (codes "A", half_full) ∷ [] }
