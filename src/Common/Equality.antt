-- ===== src/Common/Equality.antt =====
-- The interface of types with a Boolean equality (Rust's `Eq`), with its instances.
use Prim.Native.Nat.{ℕ}
use mathlib.Core.Path.{◌≡◌, refl, subst}
use mathlib.Core.Logic.{◌↔◌}
use mathlib.Core.Bool.{Bool, true, false, ◌&&◌}
use mathlib.Core.List.{List, [], ◌∷◌}
use native.Mathlib.Omega.{arith}
use xira_net.Common.Tests.{eqb, eqb_iff}

pub record Eq {κ} (K : Type κ) : Type κ where
  pub same : K → K → Bool
  pub same_refl : (k : K) → same k k ≡ true
  pub same_sound : (k l : K) → same k l ≡ true → k ≡ l

infix 45 ◌==◌
abbrev pub ◌==◌ {κ} : {K : Type κ} ⦃c : Eq K⦄ (k l : K) → Bool
◌==◌ ⦃c⦄ k l = c.same k l

pub ==_refl {κ} : {K : Type κ} ⦃c : Eq K⦄ (k : K) → (k == k) ≡ true
==_refl ⦃c⦄ k = c.same_refl k

pub ==_iff {κ} : {K : Type κ} ⦃c : Eq K⦄ (k l : K) → ((k == l) ≡ true) ↔ (k ≡ l)
==_iff ⦃c⦄ k l = (c.same_sound k l, λ h. subst (λ x. c.same k x ≡ true) h (c.same_refl k))

instance abbrev pub nat_eq : Eq ℕ
nat_eq = record {
  same_sound = λ k l. (eqb_iff k l).0;
  same_refl = λ k. (eqb_iff k k).1 refl;
  same = eqb;
}

abbrev pub list_eqb : List ℕ → List ℕ → Bool
list_eqb [] [] = true
list_eqb (x ∷ xs) (y ∷ ys) = eqb x y && list_eqb xs ys
list_eqb _ _ = false

pub list_eqb_iff : (xs ys : List ℕ) → (list_eqb xs ys ≡ true) ↔ (xs ≡ ys)
list_eqb_iff [] [] = ground arith
list_eqb_iff [] (y ∷ ys) = ground arith
list_eqb_iff (x ∷ xs) [] = ground arith
list_eqb_iff (x ∷ xs) (y ∷ ys) = ground (arith, list_eqb_iff xs ys)

instance abbrev pub text_eq : Eq (List ℕ)
text_eq = record {
  same_sound = λ k l. (list_eqb_iff k l).0;
  same_refl = λ k. (list_eqb_iff k k).1 refl;
  same = list_eqb;
}
