-- ===== src/Middleware/IpFilter/Tests.antt =====
-- Runs of the filter, and the theorems about it at concrete lists.
use xira_net.Common.{
  ℕ, ◌+◌, ◌≤◌, ◌≡◌, refl, ◌↔◌, true, false, Option, none, some, [], ◌∷◌, Text, codes, split,
  parse_uint, text_eq,
}
use xira_net.Net.{IpAddr, v4}
use xira_net.Middleware.RateLimit.{contains_ip}
use xira_net.Middleware.IpFilter.{IpFilter, same_masked, ip_matches_cidr, is_allowed}
use xira_net.Middleware.IpFilter.Decision.{same_masked-contains_ip}

-- A toy notation of addresses: one letter, for 10.0.0.0 plus its code.
toy_parse : Text → Option IpAddr
toy_parse [] = none
toy_parse (c ∷ s) = some (v4 (167772160 + c))

abbrev filter : IpFilter
filter = record { whitelist = codes "a/8" ∷ []; blacklist = codes "b" ∷ []; enabled = true }

filter_test :
    (is_allowed toy_parse filter (codes "a") ≡ true)
    × (is_allowed toy_parse filter (codes "b") ≡ false)
    × (is_allowed toy_parse (record filter { blacklist = codes "a/0" ∷ [] }) (codes "b") ≡ true)
unfolding is_allowed ip_matches_cidr toy_parse same_masked split parse_uint
filter_test = (refl, refl, refl)

same_masked-contains_ip_example :
    (1 ≤ 8
      → 8 ≤ 32
      → same_masked 8 (v4 167772160) (v4 167772161)
        ≡ contains_ip (record { network = v4 167772160; prefix = 8 }) (v4 167772161))
    × ((same_masked 0 (v4 167772160) (v4 167772161) ≡ true) ↔ ◌≡◌ {A = ℕ} 167772160 167772161)
same_masked-contains_ip_example = same_masked-contains_ip 167772160 167772161 8
