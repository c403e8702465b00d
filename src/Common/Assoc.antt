-- ===== src/Common/Assoc.antt =====
-- Maps (the source's `DashMap`) as association lists, with their laws in `if` form.
use Prim.Native.Nat.{◌≤◌, ◌<◌}
use mathlib.Core.Path.{◌≡◌, refl, sym, ◌∙◌, subst}
use mathlib.Core.Logic.{◌⊎◌, inl, inr}
use mathlib.Core.Bool.{Bool, true, false}
use mathlib.Core.List.{List, [], ◌∷◌}
use mathlib.Core.Option
use mathlib.Core.Option.{Option, none, some}
use native.Mathlib.Omega.{arith}
use xira_net.Common.Tests.{if◌then◌else◌, Bool-cases, is_some, some_inj}
use xira_net.Common.Equality.{Eq, ◌==◌, ==_iff, ==_refl}
use xira_net.Common.Lists.{length, All}

none-some {ℓ} : {A : Type ℓ} {a : A} → none ≡ some a → ⊥
none-some h = ground arith

abbrev pub Dict {ℓ κ} : Type ℓ → Type κ → Type (ℓ ⊔ κ)
Dict K V = List (K × V)

module _ {ℓ κ} {K : Type ℓ} {V : Type κ} ⦃e : Eq K⦄ where
  unfoldable pub get : K → Dict K V → Option V
  get k [] = none
  get k ((j, v) ∷ m) = if j == k then some v else get k m

  unfoldable pub remove : K → Dict K V → Dict K V
  remove k [] = []
  remove k ((j, w) ∷ m) = if j == k then remove k m else (j, w) ∷ remove k m

  -- The order of a map's entries means nothing, so a new entry stands first.
  unfoldable pub insert : K → V → Dict K V → Dict K V
  unfolding remove
  insert k v m = (k, v) ∷ remove k m

  -- `get_mut`, with what the caller then does to the value.
  unfoldable pub modify : K → (V → V) → Dict K V → Dict K V
  modify k f [] = []
  modify k f ((j, w) ∷ m) = if j == k then (j, f w) ∷ m else (j, w) ∷ modify k f m

  pub get-remove :
      (k j : K) (m : Dict K V) → get j (remove k m) ≡ (if k == j then none else get j m)
  unfolding get remove
  get-remove k j [] = ground arith
  get-remove k j ((i, w) ∷ m) = ground (arith, ==_iff k j, ==_iff i k, ==_iff i j, get-remove k j m)

  pub get-insert :
      (k j : K) (v : V) (m : Dict K V) → get j (insert k v m) ≡ (if k == j then some v else get j m)
  unfolding get insert
  get-insert k j v m = ground (arith, ==_iff k j, get-remove k j m)

  pub get-insert_self : (k : K) (v : V) (m : Dict K V) → get k (insert k v m) ≡ some v
  get-insert_self k v m = get-insert k k v m ∙ rw (==_refl k) refl

  pub get-insert_other :
      (k j : K) (v : V) (m : Dict K V) → (k == j) ≡ false → get j (insert k v m) ≡ get j m
  get-insert_other k j v m n = get-insert k j v m ∙ rw n refl

  -- What is found after an insertion is the new value under the new key, or was there.
  pub inserted :
      (k j : K) (v w : V) (m : Dict K V)
      → get j (insert k v m) ≡ some w
      → ((k ≡ j) × (v ≡ w)) ⊎ (((k == j) ≡ false) × (get j m ≡ some w))
  inserted k j v w m h = elim (Bool-cases (k == j)) [
    | inl e ↦ inl ((==_iff k j).0 e, some_inj (sym (get-insert k j v m ∙ rw e refl) ∙ h))
    | inr n ↦ inr (n, sym (get-insert_other k j v m n) ∙ h)
  ]

  -- A fresh key hides nothing.
  pub get-insert_fresh :
      (k j : K) (v w : V) (m : Dict K V)
      → get k m ≡ none
      → get j m ≡ some w
      → get j (insert k v m) ≡ some w
  get-insert_fresh k j v w m fresh h = elim (Bool-cases (k == j)) [
    | inl e ↦ absurd (none-some (sym (subst (λ x. get x m ≡ none) ((==_iff k j).0 e) fresh) ∙ h))
    | inr n ↦ get-insert_other k j v m n ∙ h
  ]

  pub get-modify :
      (k j : K) (f : V → V) (m : Dict K V)
      → get j (modify k f m) ≡ (if k == j then Option.map f (get j m) else get j m)
  unfolding get modify
  get-modify k j f [] = ground arith
  get-modify k j f ((i, w) ∷ m) =
      ground (arith, ==_iff k j, ==_iff i k, ==_iff i j, get-modify k j f m)

  pub length-remove-le : (k : K) (m : Dict K V) → length (remove k m) ≤ length m
  unfolding remove
  length-remove-le k [] = omega arith
  length-remove-le k ((j, w) ∷ m) = ground (arith, length-remove-le k m)

  -- The map has the key.
  abbrev pub Holds : K → Dict K V → Type 0
  Holds k m = is_some (get k m) ≡ true

  pub Holds-head : (k : K) (v : V) (m : Dict K V) → Holds k ((k, v) ∷ m)
  unfolding get
  Holds-head k v m = ground (arith, ==_refl k)

  pub Holds-tail : (k j : K) (v : V) (m : Dict K V) → Holds k m → Holds k ((j, v) ∷ m)
  unfolding get
  Holds-tail k j v m h = ground (arith, h)

  pub length-remove-lt : (k : K) (m : Dict K V) → Holds k m → length (remove k m) < length m
  unfolding get remove
  length-remove-lt k [] h = ground (arith, h)
  length-remove-lt k ((j, v) ∷ m) h = ground (arith, h, length-remove-lt k m, length-remove-le k m)

  pub All-remove {μ} : (P : K × V → Type μ) (k : K) (m : Dict K V) → All P m → All P (remove k m)
  unfolding remove
  All-remove P k [] h = tt
  All-remove P k ((j, w) ∷ m) h = ground (arith, All-remove P k m h.1)

-- `Option::filter`.
abbrev pub keep {κ} : {V : Type κ} → (V → Bool) → Option V → Option V
keep p none = none
keep p (some v) = if p v then some v else none

-- `retain` on a map; its law wants keys that are distinct, as a map's are.
module _ {ℓ κ} {K : Type ℓ} {V : Type κ} ⦃e : Eq K⦄ where
  unfoldable pub retain_values : (V → Bool) → Dict K V → Dict K V
  retain_values p [] = []
  retain_values p ((k, v) ∷ m) = if p v then (k, v) ∷ retain_values p m else retain_values p m

  abbrev pub Distinct : Dict K V → Type κ
  Distinct [] = Unit
  Distinct ((k, v) ∷ m) = (get k m ≡ none) × Distinct m

  pub get-retain_values :
      (p : V → Bool) (k : K) (m : Dict K V)
      → Distinct m
      → get k (retain_values p m) ≡ keep p (get k m)
  unfolding get retain_values
  get-retain_values p k [] d = refl
  get-retain_values p k ((j, v) ∷ m) d = ground (arith, ==_iff j k, get-retain_values p k m)

-- `iter().find(…)` over the values of a map.
module _ {ℓ κ} {K : Type ℓ} {V : Type κ} where
  unfoldable pub find : (V → Bool) → Dict K V → Option V
  find p [] = none
  find p ((k, v) ∷ m) = if p v then some v else find p m

  abbrev pub values : Dict K V → List V
  values [] = []
  values ((k, v) ∷ m) = v ∷ values m
