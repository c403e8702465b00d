-- ===== src/Middleware/RateLimit/Cidr.antt =====
-- What `CidrEntry::contains` decides.
use xira_net.Common.{ℕ, zero, suc, ◌-◌, ◌/◌, ◌^◌, ◌≤◌, ◌<◌, ◌≡◌, refl, sym, ◌∙◌, ◌↔◌, true, arith}
use xira_net.Net.{IpAddr, v4, v6, clear_low_iff, div-pow_mono}
use xira_net.Middleware.RateLimit.{CidrEntry, same_range, contains_ip}

-- The two addresses are of one family and agree in their first `p` bits.
abbrev pub SameNetwork : ℕ → IpAddr → IpAddr → Type 0
SameNetwork p (v4 a) (v4 b) = a / 2 ^ (32 - p) ≡ b / 2 ^ (32 - p)
SameNetwork p (v6 a) (v6 b) = a / 2 ^ (128 - p) ≡ b / 2 ^ (128 - p)
SameNetwork p (v4 a) (v6 b) = ⊥
SameNetwork p (v6 a) (v4 b) = ⊥

-- The number is one that the address has room for.
abbrev pub Fits : IpAddr → Type 0
Fits (v4 a) = a < 2 ^ 32
Fits (v6 a) = a < 2 ^ 128

div-pow_small : (x k : ℕ) → x < 2 ^ k → x / 2 ^ k ≡ 0
div-pow_small x k h = grind arith

same_range_iff :
    (p : ℕ) (n a : IpAddr) → Fits n → Fits a → (same_range p n a ≡ true) ↔ SameNetwork p n a
unfolding same_range
same_range_iff zero (v4 n) (v4 a) fn fa =
    (λ _. div-pow_small n 32 fn ∙ sym (div-pow_small a 32 fa), λ _. refl)
same_range_iff (suc p) (v4 n) (v4 a) fn fa = ground (arith, clear_low_iff n a (32 - suc p))
same_range_iff zero (v6 n) (v6 a) fn fa =
    (λ _. div-pow_small n 128 fn ∙ sym (div-pow_small a 128 fa), λ _. refl)
same_range_iff (suc p) (v6 n) (v6 a) fn fa = ground (arith, clear_low_iff n a (128 - suc p))
same_range_iff p (v4 n) (v6 a) fn fa = ground arith
same_range_iff p (v6 n) (v4 a) fn fa = ground arith

-- For addresses in their range, a CIDR range contains an address exactly when both are of one
-- family and agree in the first prefix bits.
pub contains_ip_iff :
    (c : CidrEntry) (ip : IpAddr)
    → Fits c.network
    → Fits ip
    → (contains_ip c ip ≡ true) ↔ SameNetwork c.prefix c.network ip
unfolding contains_ip
contains_ip_iff c ip fn fi = same_range_iff c.prefix c.network ip fn fi

SameNetwork-mono : (p q : ℕ) (n a : IpAddr) → p ≤ q → SameNetwork q n a → SameNetwork p n a
SameNetwork-mono p q (v4 n) (v4 a) h s = div-pow_mono n a (32 - q) (32 - p) (omega arith) s
SameNetwork-mono p q (v6 n) (v6 a) h s = div-pow_mono n a (128 - q) (128 - p) (omega arith) s
SameNetwork-mono p q (v4 n) (v6 a) h s = s
SameNetwork-mono p q (v6 n) (v4 a) h s = s

-- For addresses in their range, a range with a shorter prefix contains all that the same
-- network contains with a longer one.
pub contains_ip_mono :
    (n ip : IpAddr) (p q : ℕ)
    → Fits n
    → Fits ip
    → p ≤ q
    → contains_ip (record { network = n; prefix = q }) ip ≡ true
    → contains_ip (record { network = n; prefix = p }) ip ≡ true
contains_ip_mono n ip p q fn fi h c =
    (contains_ip_iff (record { network = n; prefix = p }) ip fn fi).1 (
      SameNetwork-mono p q n ip h
        ((contains_ip_iff (record { network = n; prefix = q }) ip fn fi).0 c))
