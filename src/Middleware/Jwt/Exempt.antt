-- ===== src/Middleware/Jwt/Exempt.antt =====
-- Which requests pass without a token: only those whose resolved path begins with an open name.
use xira_net.Common.{
  ◌≡◌, refl, sym, ap, ◌∙◌, subst, ◌⊎◌, inl, inr, Bool, true, false, not, ◌||◌, List, [], ◌∷◌, ◌++◌,
  arith, Text, codes, strip_prefix, strip_prefix_sound, starts_with, split_from, split,
  split-append, Without, split-whole, ◌==◌, list_eqb_iff, any, all, is_empty, All, eqb,
  if◌then◌else◌, Bool-cases, Option-cases, nat_eq, text_eq,
}
use mathlib.Core.List.{append_assoc}
use xira_net.Middleware.Jwt.{
  exempt_literals, normalize_path, is_exempt_path, resolved, begins_with, has_trailing_slash,
}
use xira_net.Middleware.Jwt.Segments.{IsPlain, resolved-IsPlain}
use xira_net.Middleware.Jwt.Normal.{normalize_path-path_text, path_text, text-split}

abbrev pub open_name : Text → Bool
open_name s =
    any (λ t. s == t)
      (codes "metrics"
        ∷ codes "health"
        ∷ codes "dashboard"
        ∷ codes "ws"
        ∷ codes "xira"
        ∷ codes "auth"
        ∷ [])

-- The parts of a path begin with an empty one, before the first slash, and an open name.
OpensWith : List Text → Type 0
OpensWith parts = (n : Text) × (more : List Text) × (parts ≡ [] ∷ n ∷ more) × (open_name n ≡ true)

abbrev Opens : Text → Type 0
Opens q = OpensWith (split b'/' q)

Opens-any : (q : Text) (ts : List Text) → All Opens ts → any (λ t. q == t) ts ≡ true → Opens q
Opens-any q [] o h = ground (arith, h)
Opens-any q (t ∷ ts) o h = elim (Bool-cases (q == t)) [
  | inl e ↦ subst Opens (sym ((list_eqb_iff q t).0 e)) o.0
  | inr n ↦ Opens-any q ts o.1 (ground (arith, h, n))
]

under-split :
    (name r : Text)
    → Without b'/' name
    → split b'/' ((b'/' ∷ (name ++ b'/' ∷ [])) ++ r) ≡ [] ∷ name ∷ split b'/' r
under-split name r w =
    ap (λ t. split b'/' (b'/' ∷ t)) (append_assoc name (b'/' ∷ []) r)
    ∙ split-append b'/' [] (name ++ b'/' ∷ r)
    ∙ ap (λ q. q ++ split b'/' (name ++ b'/' ∷ r)) (split-whole b'/' [] tt)
    ∙ ap (λ q. [] ∷ q)
        (split-append b'/' name r ∙ ap (λ q. q ++ split b'/' r) (split-whole b'/' name w))

Opens-under :
    (q name : Text)
    → open_name name ≡ true
    → Without b'/' name
    → starts_with q (b'/' ∷ (name ++ b'/' ∷ [])) ≡ true
    → Opens q
unfolding starts_with OpensWith
Opens-under q name o w h = elim (Option-cases (strip_prefix (b'/' ∷ (name ++ b'/' ∷ [])) q)) [
  | inl n ↦ ground (arith, h, n)
  | inr (r, e) ↦ (
    name,
    split b'/' r,
    ap (split b'/') (strip_prefix_sound (b'/' ∷ (name ++ b'/' ∷ [])) q r e) ∙ under-split name r w,
    o,
  )
]

-- Each literal of the test, split by computing.
Opens-metrics : Opens (codes "/metrics")
unfolding OpensWith split split_from
Opens-metrics = (codes "metrics", [], refl, refl)

Opens-health : Opens (codes "/health")
unfolding OpensWith split split_from
Opens-health = (codes "health", [], refl, refl)

Opens-dashboard : Opens (codes "/dashboard")
unfolding OpensWith split split_from
Opens-dashboard = (codes "dashboard", [], refl, refl)

Opens-ws_dashboard : Opens (codes "/ws/dashboard")
unfolding OpensWith split split_from
Opens-ws_dashboard = (codes "ws", codes "dashboard" ∷ [], refl, refl)

Opens-ws_metrics : Opens (codes "/ws/metrics")
unfolding OpensWith split split_from
Opens-ws_metrics = (codes "ws", codes "metrics" ∷ [], refl, refl)

Opens-xira : Opens (codes "/xira")
unfolding OpensWith split split_from
Opens-xira = (codes "xira", [], refl, refl)

Opens-auth : Opens (codes "/auth")
unfolding OpensWith split split_from
Opens-auth = (codes "auth", [], refl, refl)

slash_free : (s : Text) → all (λ c. not (eqb c b'/')) s ≡ true → Without b'/' s
slash_free [] h = tt
slash_free (c ∷ s) h = ground (arith, slash_free s)

or-cases : (a b : Bool) → (a || b) ≡ true → (a ≡ true) ⊎ (b ≡ true)
or-cases true b h = inl refl
or-cases false b h = inr h

Opens-exempt : (q : Text) → is_exempt_path q ≡ true → Opens q
unfolding is_exempt_path
Opens-exempt q h = elim (or-cases _ _ h) [
  | inl a ↦ elim (or-cases _ _ a) [
    | inl b ↦ elim (or-cases _ _ b) [
      | inl c ↦ elim (or-cases _ _ c) [
        | inl d ↦
            Opens-any q exempt_literals
              (
                Opens-metrics,
                (Opens-health, (Opens-dashboard, (Opens-ws_dashboard, (Opens-ws_metrics, tt)))),
              )
              d
        | inr under_xira ↦
            Opens-under q (codes "xira") refl (slash_free (codes "xira") refl) under_xira
      ]
      | inr xira ↦ subst Opens (sym ((list_eqb_iff q (codes "/xira")).0 xira)) Opens-xira
    ]
    | inr under_auth ↦ Opens-under q (codes "auth") refl (slash_free (codes "auth") refl) under_auth
  ]
  | inr auth ↦ subst Opens (sym ((list_eqb_iff q (codes "/auth")).0 auth)) Opens-auth
]

front-opens :
    (l : Bool) (x : Text) (xs tail : List Text)
    → is_empty x ≡ false
    → OpensWith ((if l then [] ∷ [] else []) ++ ((x ∷ xs) ++ tail))
    → (l ≡ true) × (open_name x ≡ true)
unfolding OpensWith
front-opens true x xs tail e (n, more, q, o) = ground (arith, o, q)
front-opens false [] xs tail e o = ground (arith, e)
front-opens false (c ∷ x) xs tail e (n, more, q, o) = ground (arith, q)

text-opens :
    (l t : Bool) (xs : List Text)
    → All IsPlain xs
    → is_exempt_path (path_text l t xs) ≡ true
    → (s : Text) × (rest : List Text) × (xs ≡ s ∷ rest) × (open_name s ≡ true) × (l ≡ true)
unfolding is_exempt_path starts_with strip_prefix
text-opens true t [] p h = ground (arith, h)
text-opens false true [] p h = ground (arith, h)
text-opens false false [] p h = ground (arith, h)
text-opens l t (x ∷ xs) p h =
    let o =
      front-opens l x xs (if t then [] ∷ [] else []) p.0.not_empty
        (subst OpensWith (text-split l t x xs p) (Opens-exempt _ h)) in
    (x, xs, refl, o.1, o.0)

-- A path passes without a token only if it is absolute and its resolved segments begin with one of the open names.
pub is_exempt_path-open_name :
    (p : Text)
    → is_exempt_path (normalize_path p) ≡ true
    → (s : Text) × (rest : List Text) × (resolved p ≡ s ∷ rest)
      × (open_name s ≡ true)
      × (begins_with b'/' p ≡ true)
is_exempt_path-open_name p h =
    text-opens (begins_with b'/' p) (has_trailing_slash p) (resolved p) (resolved-IsPlain p)
      (sym (ap is_exempt_path (normalize_path-path_text p)) ∙ h)
