-- ===== src/Middleware/IpFilter/Decision.antt =====
-- What the filter decides, and how its ranges compare with those of the rate limiter.
use xira_net.Common.{
  ℕ, ◌-◌, ◌≤◌, ◌≡◌, refl, ◌↔◌, ◌⊎◌, Bool, true, false, ◌||◌, Option, List, [], ◌∷◌, arith, Text,
  ◌==◌, any, nat_eq, text_eq,
}
use xira_net.Net.{IpAddr, v4, clear_low_iff}
use xira_net.Middleware.RateLimit.{contains_ip}
use xira_net.Middleware.IpFilter.{IpFilter, masked_bits, same_masked, ip_matches_cidr, is_allowed}

masked_bits_lem : (p : ℕ) → 1 ≤ p → p ≤ 32 → masked_bits p ≡ 32 - p
unfolding masked_bits
masked_bits_lem p h l = ground arith

-- On IPv4 addresses, with a prefix of 1 to 32 bits a range means what it means to the rate
-- limiter; with the prefix 0, which contains every address there, it holds its own address
-- alone.
pub same_masked-contains_ip :
    (net addr prefix : ℕ)
    → (1 ≤ prefix
        → prefix ≤ 32
        → same_masked prefix (v4 net) (v4 addr)
          ≡ contains_ip (record { network = v4 net; prefix = prefix }) (v4 addr))
      × ((same_masked 0 (v4 net) (v4 addr) ≡ true) ↔ (net ≡ addr))
unfolding same_masked contains_ip
same_masked-contains_ip net addr prefix = (agree prefix, ground (arith, clear_low_iff net addr 0))
  where
    agree :
        (p : ℕ)
        → 1 ≤ p
        → p ≤ 32
        → same_masked p (v4 net) (v4 addr)
          ≡ contains_ip (record { network = v4 net; prefix = p }) (v4 addr)
    agree p h l = let e : masked_bits p ≡ 32 - p = masked_bits_lem p h l in rw e (ground arith)

-- An entry that stands for the address, as a text or as a range.
abbrev pub covers : (Text → Option IpAddr) → Text → Text → Bool
covers parse_ip ip entry = entry == ip || ip_matches_cidr parse_ip ip entry

any-or : (p q : Text → Bool) (xs : List Text) → any (λ x. p x || q x) xs ≡ (any p xs || any q xs)
any-or p q [] = refl
any-or p q (x ∷ xs) = ground (arith, any-or p q xs)

-- An address passes exactly if the filter is off, or no entry of the deny list covers it and
-- the allow list is empty or has an entry that does.
pub is_allowed_iff :
    (parse_ip : Text → Option IpAddr) (f : IpFilter) (ip : Text)
    → (is_allowed parse_ip f ip ≡ true) ↔ (
        (f.enabled ≡ false)
        ⊎ ((any (covers parse_ip ip) f.blacklist ≡ false)
            × ((f.whitelist ≡ []) ⊎ (any (covers parse_ip ip) f.whitelist ≡ true))))
unfolding is_allowed
is_allowed_iff parse_ip f ip =
    rw
      (
        any-or (λ entry. entry == ip) (λ entry. ip_matches_cidr parse_ip ip entry) f.blacklist,
        any-or (λ entry. entry == ip) (λ entry. ip_matches_cidr parse_ip ip entry) f.whitelist,
      )
      (ground arith)
