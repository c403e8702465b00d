-- ===== src/Common/Results.antt =====
-- `Result`, its `?` as bind, and the saturating arithmetic of `u32`.
use Prim.Native.Nat.{ℕ, ◌+◌, ◌%◌, min}
use mathlib.Core.Path.{◌≡◌, refl}
use native.Mathlib.Omega.{arith}

pub data Result {ℓ κ} (A : Type ℓ) (E : Type κ) : Type (ℓ ⊔ κ) where
  ok : A → Result A E
  err : E → Result A E

infixl 5 ◌>>=◌
abbrev pub ◌>>=◌ {ℓ κ μ} :
    {A : Type ℓ} {B : Type κ} {E : Type μ} → Result A E → (A → Result B E) → Result B E
ok a >>= f = f a
err e >>= f = err e

abbrev pub u32_max : ℕ
u32_max = 4294967295

abbrev pub u64_max : ℕ
u64_max = 18446744073709551615

-- `n.saturating_add(1)` on `u32` and on `u64`.
abbrev pub saturating_inc32 : ℕ → ℕ
saturating_inc32 n = min (n + 1) u32_max

abbrev pub saturating_inc64 : ℕ → ℕ
saturating_inc64 n = min (n + 1) u64_max

-- `+` on `u64` in a release build, which wraps.
abbrev pub add64 : ℕ → ℕ → ℕ
add64 a b = (a + b) % 18446744073709551616

-- A `?` that went on has seen an `ok`.
pub bind-ok {ℓ κ μ} :
    {A : Type ℓ} {B : Type κ} {E : Type μ} (m : Result A E) (f : A → Result B E) (r : B)
    → (m >>= f) ≡ ok r
    → (a : A) × (m ≡ ok a) × (f a ≡ ok r)
bind-ok (ok a) f r h = (a, refl, h)
bind-ok (err e) f r h = ground arith
