-- ===== src/Identity/Roles/Order.antt =====
-- `satisfies` as an order on the roles, and which roles survive the database.
use xira_net.Common.{
  ◌≤◌, ◌≡◌, refl, sym, ap, ◌∙◌, subst, ◌↔◌, ◌⊎◌, inl, inr, true, false, ◌++◌, arith, Text, codes,
  strip_prefix, starts_with, ==_refl, list_eqb_iff, take, length-append, take-append, Bool-cases,
  nat_eq, text_eq,
}
use xira_net.Identity.Roles.{
  UserRole, super_admin, admin, developer, viewer, service, custom, level, role_eqb, is_custom,
  satisfies, as_str, debug_role, inside, parse_role,
}

role_eqb_refl : (r : UserRole) → role_eqb r r ≡ true
unfolding role_eqb
role_eqb_refl (custom s) = ==_refl s
role_eqb_refl super_admin = refl
role_eqb_refl admin = refl
role_eqb_refl developer = refl
role_eqb_refl viewer = refl
role_eqb_refl service = refl

role_eqb-text : (r : UserRole) (t : Text) → role_eqb r (custom t) ≡ true → r ≡ custom t
unfolding role_eqb
role_eqb-text (custom s) t h = ap custom ((list_eqb_iff s t).0 h)
role_eqb-text super_admin t h = ground (arith, h)
role_eqb-text admin t h = ground (arith, h)
role_eqb-text developer t h = ground (arith, h)
role_eqb-text viewer t h = ground (arith, h)
role_eqb-text service t h = ground (arith, h)

role_eqb-custom : (r q : UserRole) → is_custom q ≡ true → role_eqb r q ≡ true → r ≡ q
unfolding is_custom
role_eqb-custom r (custom t) c h = role_eqb-text r t h
role_eqb-custom r super_admin c h = ground (arith, c)
role_eqb-custom r admin c h = ground (arith, c)
role_eqb-custom r developer c h = ground (arith, c)
role_eqb-custom r viewer c h = ground (arith, c)
role_eqb-custom r service c h = ground (arith, c)

pub satisfies_refl : (r : UserRole) → satisfies r r ≡ true
unfolding satisfies
satisfies_refl r = ground (arith, role_eqb_refl r)

abbrev pub Outranks : UserRole → UserRole → Type 0
Outranks r q = (is_custom r ≡ false) × (is_custom q ≡ false) × (level q ≤ level r)

satisfies-cases : (r q : UserRole) → satisfies r q ≡ true → (r ≡ q) ⊎ Outranks r q
unfolding satisfies
satisfies-cases r q h = elim (Bool-cases (is_custom q)) [
  | inl c ↦ inl (role_eqb-custom r q c (ground (arith, c, h)))
  | inr n ↦ inr (ground (arith, n, h))
]

Outranks-satisfies : (r q : UserRole) → Outranks r q → satisfies r q ≡ true
unfolding satisfies
Outranks-satisfies r q h = ground (arith, h)

-- A role satisfies itself, and a built-in one every built-in one of no higher level; nothing else.
pub satisfies_iff : (r q : UserRole) → (satisfies r q ≡ true) ↔ ((r ≡ q) ⊎ Outranks r q)
satisfies_iff r q = (
  satisfies-cases r q,
  λ o. elim o [
    | inl e ↦ subst (λ x. satisfies r x ≡ true) e (satisfies_refl r)
    | inr k ↦ Outranks-satisfies r q k
  ],
)

-- What a role may do, a role that satisfies it may do.
pub satisfies_trans :
    (r q p : UserRole) → satisfies r q ≡ true → satisfies q p ≡ true → satisfies r p ≡ true
satisfies_trans r q p h k = elim (satisfies-cases r q h) [
  | inl e ↦ subst (λ x. satisfies x p ≡ true) (sym e) k
  | inr a ↦ elim (satisfies-cases q p k) [
    | inl e ↦ subst (λ x. satisfies r x ≡ true) e h
    | inr b ↦ Outranks-satisfies r p (ground (arith, a, b))
  ]
]

inside-wrapped : (s : Text) → inside (codes "Custom(" ++ (s ++ codes ")")) ≡ s
inside-wrapped s =
    ap (λ n. take n (s ++ codes ")")) (omega (arith, length-append s (codes ")")))
    ∙ take-append s (codes ")")

-- Reading a stored role gives it back, but a custom one comes back as the text by which Debug
-- quotes its name.
parse_role-debug_role :
    (debug_str : Text → Text) (r : UserRole)
    → parse_role (debug_role debug_str r) ≡ elim r [ custom s ↦ custom (debug_str s) | q ↦ q ]
unfolding parse_role debug_role as_str starts_with strip_prefix
parse_role-debug_role debug_str (custom s) = ap custom (inside-wrapped (debug_str s))
parse_role-debug_role debug_str super_admin = refl
parse_role-debug_role debug_str admin = refl
parse_role-debug_role debug_str developer = refl
parse_role-debug_role debug_str viewer = refl
parse_role-debug_role debug_str service = refl
