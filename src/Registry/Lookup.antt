-- ===== src/Registry/Lookup.antt =====
-- `lookup` finds the service with the longest prefix that serves the path.
use xira_net.Common.{
  ℕ, ◌≤◌, ◌<◌, ◌≡◌, refl, ◌⊎◌, inl, inr, true, false, ◌&&◌, Option, none, some, List, [], ◌∷◌,
  arith, values, Text, length, In, All, ltb, Bool-cases,
}
use xira_net.Registry.{ServiceEntry, ServiceRegistry, serves, lookup_from, lookup}

-- What `lookup` promises: the answer serves the path, and no service that serves it has a longer
-- prefix.
abbrev pub Bounds : Text → ℕ → ServiceEntry → Type 0
Bounds path n e = serves e.prefix path ≡ true → length e.prefix ≤ n

abbrev Answer : Text → ℕ → Option ServiceEntry → List ServiceEntry → Option ServiceEntry → Type 0
Answer path n best es r =
    ((r ≡ best) × All (Bounds path n) es)
    ⊎ ((e : ServiceEntry) × (r ≡ some e)
        × In e es
        × (serves e.prefix path ≡ true)
        × (n < length e.prefix)
        × All (Bounds path (length e.prefix)) es)

All-mono :
    (path : Text) (n k : ℕ) (es : List ServiceEntry)
    → n ≤ k
    → All (Bounds path n) es
    → All (Bounds path k) es
All-mono path n k [] h a = tt
All-mono path n k (e ∷ es) h (b, a) = (λ s. ground (arith, b s), All-mono path n k es h a)

lookup_from-Answer :
    (path : Text) (n : ℕ) (best : Option ServiceEntry) (es : List ServiceEntry)
    → Answer path n best es (lookup_from path n best es)
unfolding lookup_from
lookup_from-Answer path n best [] = inl (refl, tt)
lookup_from-Answer path n best (e ∷ es) =
    elim (Bool-cases (serves e.prefix path && ltb n (length e.prefix))) [
      | inl hit ↦ rw hit (longer hit (lookup_from-Answer path (length e.prefix) (some e) es))
      | inr miss ↦ rw miss (same miss (lookup_from-Answer path n best es))
    ]
  where
    longer :
        (serves e.prefix path && ltb n (length e.prefix)) ≡ true
        → Answer path (length e.prefix) (some e) es (lookup_from path (length e.prefix) (some e) es)
        → Answer path n best (e ∷ es) (lookup_from path (length e.prefix) (some e) es)
    longer hit (inl (r, a)) =
        inr (e, r, inl refl, ground arith, ground arith, (λ _. omega arith, a))
    longer hit (inr (f, r, i, s, l, a)) = inr (f, r, inr i, s, ground arith, (λ _. omega arith, a))

    same :
        (serves e.prefix path && ltb n (length e.prefix)) ≡ false
        → Answer path n best es (lookup_from path n best es)
        → Answer path n best (e ∷ es) (lookup_from path n best es)
    same miss (inl (r, a)) = inl (r, (λ s. ground arith, a))
    same miss (inr (f, r, i, s, l, a)) = inr (f, r, inr i, s, l, (λ t. ground arith, a))

-- A service that lookup returns is registered, serves the path, has a prefix that is not empty,
-- and no registered service that serves the path has a longer one; if it returns none, only
-- services with the empty prefix serve the path.
pub lookup_lem :
    (r : ServiceRegistry) (path : Text)
    → ((lookup r path ≡ none) × All (Bounds path 0) (values r.services))
      ⊎ ((e : ServiceEntry) × (lookup r path ≡ some e)
          × In e (values r.services)
          × (serves e.prefix path ≡ true)
          × (0 < length e.prefix)
          × All (Bounds path (length e.prefix)) (values r.services))
unfolding lookup
lookup_lem r path = lookup_from-Answer path 0 none (values r.services)
