-- ===== src/Net.antt =====
-- IP addresses as `std::net` gives them: a number of 32 or of 128 bits.
pub mod Ipv4
use native.Mathlib.Nat.{one-le-pow, pow-suc, mul-div_cancel, div-div-eq-div-mul}
use native.Mathlib.Decide.{dec_le}
use xira_net.Common.{ℕ, zero, suc, ◌*◌, ◌/◌, ◌^◌, ◌≤◌, ◌≡◌, sym, ap, ◌∙◌, ◌↔◌, arith}

pub data IpAddr : Type 0 where
  v4 v6 : ℕ → IpAddr

-- `x & (!0 << k)`: the k low bits cleared.
abbrev pub clear_low : ℕ → ℕ → ℕ
clear_low x k = x / 2 ^ k * 2 ^ k

-- Two numbers agree above their k low bits.
pub clear_low_iff : (x y k : ℕ) → (clear_low x k ≡ clear_low y k) ↔ (x / 2 ^ k ≡ y / 2 ^ k)
clear_low_iff x y k = (
  (λ e.
      sym (mul-div_cancel (x / 2 ^ k) (one-le-pow k 2 (omega arith)))
      ∙ ap (λ (t : ℕ). t / 2 ^ k) e
      ∙ mul-div_cancel (y / 2 ^ k) (one-le-pow k 2 (omega arith))),
  ap (λ (t : ℕ). t * 2 ^ k),
)

div-pow-suc : (x k : ℕ) → x / 2 ^ suc k ≡ x / 2 ^ k / 2
div-pow-suc x k = rw (pow-suc 2 k) (sym (div-div-eq-div-mul x (2 ^ k) 2))

-- Numbers that agree above some bits agree above more.
pub div-pow_mono : (x y j k : ℕ) → j ≤ k → x / 2 ^ j ≡ y / 2 ^ j → x / 2 ^ k ≡ y / 2 ^ k
div-pow_mono x y j zero h e = let z : j ≡ 0 = omega arith in rw z at e
div-pow_mono x y j (suc k) h e = elim (dec_le j k) [
  | yes l ↦ rw (div-pow-suc x k, div-pow-suc y k) (ap (λ (t : ℕ). t / 2) (div-pow_mono x y j k l e))
  | no n ↦ let z : j ≡ suc k = omega arith in rw z at e
]
