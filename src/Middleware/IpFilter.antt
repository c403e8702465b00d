-- ===== src/Middleware/IpFilter.antt =====
-- src/middleware/ip_filter.rs: the allow and deny lists of the gateway. Parsing an IP address is that
-- of `std::net`, and stands as a function. Shifts are those of a release build, which takes the
-- amount modulo 32.
pub mod Decision
mod Tests
use xira_net.Common.{
  ℕ, ◌-◌, ◌%◌, Bool, true, false, not, Option, none, some, List, [], ◌∷◌, Text, split, parse_uint,
  ◌==◌, any, is_empty, u32_max, leb, eqb, if◌then◌else◌, nat_eq, text_eq,
}
use xira_net.Net.{IpAddr, v4, v6, clear_low}

pub record IpFilter : Type 0 where
  pub whitelist : List Text
  pub blacklist : List Text
  pub enabled : Bool

-- `mask`, as the number of low bits that it clears: `!((1u32 << (32 - prefix_len)) - 1)`.
unfoldable pub masked_bits : ℕ → ℕ
masked_bits prefix_len = if leb 32 prefix_len then 0 else (32 - prefix_len) % 32

unfoldable pub same_masked : ℕ → IpAddr → IpAddr → Bool
unfolding masked_bits
same_masked prefix_len (v4 cidr) (v4 target) =
    eqb (clear_low cidr (masked_bits prefix_len)) (clear_low target (masked_bits prefix_len))
same_masked prefix_len _ _ = false

module _ (parse_ip : Text → Option IpAddr) where
  matches_parts : Text → List Text → Bool
  unfolding same_masked
  matches_parts ip (addr_part ∷ prefix_part ∷ []) = elim (parse_ip addr_part) [
    | none ↦ false
    | some cidr_ip ↦ elim (parse_uint u32_max prefix_part) [
      | none ↦ false
      | some prefix_len ↦ elim (parse_ip ip) [
        | none ↦ false
        | some target_ip ↦ same_masked prefix_len cidr_ip target_ip
      ]
    ]
  ]
  matches_parts ip _ = false

  -- `ip_matches_cidr`.
  unfoldable pub ip_matches_cidr : Text → Text → Bool
  unfolding matches_parts
  ip_matches_cidr ip cidr =
      if any (λ c. eqb c b'/') cidr then matches_parts ip (split b'/' cidr) else ip == cidr

  unfoldable pub is_allowed : IpFilter → Text → Bool
  is_allowed f ip =
      if not f.enabled
      then true
      else if any (λ blocked. blocked == ip) f.blacklist
      then false
      else if any (λ blocked. ip_matches_cidr ip blocked) f.blacklist
      then false
      else if is_empty f.whitelist
      then true
      else if any (λ allowed. allowed == ip) f.whitelist
      then true
      else any (λ allowed. ip_matches_cidr ip allowed) f.whitelist
