-- ===== src/Identity/Sessions/Eviction.antt =====
-- Taking the oldest tokens off a list, and closing their sessions.
use xira_net.Common.{
  ℕ, ◌≤◌, ◌≡◌, refl, sym, ap, ◌∙◌, ◌≢◌, ◌⊎◌, inl, inr, Bool, true, false, Option, none, some, List,
  [], ◌∷◌, ◌++◌, arith, get, get-modify, Text, ◌==◌, ==_iff, length, retain, In, ltb, Bool-cases,
  nat_eq, text_eq,
}
use mathlib.Core.Option
use xira_net.Identity.Sessions.{Session, SessionManager, evict_oldest, deactivate, deactivate_all}

pub In-retain :
    (p : Text → Bool) (h : Text) (ts : List Text) → In h ts → p h ≡ true → In h (retain p ts)
In-retain p h [] i e = i
In-retain p h (t ∷ ts) (inl same) e = let pt : p t ≡ true = ap p same ∙ e in rw pt (inl same)
In-retain p h (t ∷ ts) (inr i) e = elim (Bool-cases (p t)) [
  | inl y ↦ rw y (inr (In-retain p h ts i e))
  | inr n ↦ rw n (In-retain p h ts i e)
]

pub In-append-left : (h : Text) (xs ys : List Text) → In h xs → In h (xs ++ ys)
In-append-left h [] ys i = elim i [ ]
In-append-left h (x ∷ xs) ys (inl e) = inl e
In-append-left h (x ∷ xs) ys (inr i) = inr (In-append-left h xs ys i)

pub In-append-right : (h : Text) (xs ys : List Text) → In h ys → In h (xs ++ ys)
In-append-right h [] ys i = i
In-append-right h (x ∷ xs) ys i = inr (In-append-right h xs ys i)

pub retain-append :
    (p : Text → Bool) (xs ys : List Text) → retain p (xs ++ ys) ≡ retain p xs ++ retain p ys
retain-append p [] ys = refl
retain-append p (x ∷ xs) ys = ground (arith, retain-append p xs ys)

pub length-evict_oldest : (most : ℕ) (ts : List Text) → length (evict_oldest most ts).1 ≤ most
unfolding evict_oldest
length-evict_oldest most [] = omega arith
length-evict_oldest most (t ∷ ts) = ground (arith, length-evict_oldest most ts)

evicted_cons :
    (h t : Text) (ts gone left : List Text)
    → In h (t ∷ ts)
    → (In h ts → In h gone ⊎ In h left)
    → In h (t ∷ gone) ⊎ In h left
evicted_cons h t ts gone left (inl e) rest = inl (inl e)
evicted_cons h t ts gone left (inr i) rest = elim (rest i) [ inl g ↦ inl (inr g) | inr l ↦ inr l ]

-- A token is taken off or left.
pub evict_oldest-In :
    (most : ℕ) (h : Text) (ts : List Text)
    → In h ts
    → In h (evict_oldest most ts).0 ⊎ In h (evict_oldest most ts).1
unfolding evict_oldest
evict_oldest-In most h [] i = elim i [ ]
evict_oldest-In most h (t ∷ ts) i = elim (Bool-cases (ltb most (length (t ∷ ts)))) [
  | inl y ↦ let rest = evict_oldest-In most h ts in rw y (evicted_cons h t ts _ _ i rest)
  | inr n ↦ rw n (inr i)
]

-- The newest token is left.
pub evict_oldest-last :
    (most : ℕ) (h : Text) (ts : List Text) → 1 ≤ most → In h (evict_oldest most (ts ++ h ∷ [])).1
unfolding evict_oldest
evict_oldest-last most h [] l = let n : ltb most 1 ≡ false = ground arith in rw n (inl refl)
evict_oldest-last most h (t ∷ ts) l = elim (Bool-cases (ltb most (length (t ∷ ts ++ h ∷ [])))) [
  | inl y ↦ rw y (evict_oldest-last most h ts l)
  | inr n ↦ rw n (inr (In-append-right h ts (h ∷ []) (inl refl)))
]

inactive_only :
    (o : Option Session) (s : Session)
    → Option.map (λ (x : Session). record x { active = false }) o ≡ some s
    → s.active ≢ true
inactive_only none s e a = ground arith
inactive_only (some x) s e a = ground arith

deactivate-get :
    (m : SessionManager) (old h : Text) (s : Session)
    → get h (deactivate m old).sessions ≡ some s
    → s.active ≡ true
    → (get h m.sessions ≡ some s) × (old ≢ h)
unfolding deactivate
deactivate-get m old h s e a =
    let at = get-modify old h (λ (x : Session). record x { active = false }) m.sessions in
    elim (Bool-cases (old == h)) [
      | inl y ↦ absurd (inactive_only _ s (sym (rw y at at) ∙ e) a)
      | inr n ↦ (sym (rw n at at) ∙ e, λ same. ground (arith, ==_iff old h))
    ]

pub deactivate_all-get :
    (m : SessionManager) (olds : List Text) (h : Text) (s : Session)
    → get h (deactivate_all m olds).sessions ≡ some s
    → s.active ≡ true
    → (get h m.sessions ≡ some s) × (In h olds → ⊥)
unfolding deactivate_all
deactivate_all-get m [] h s e a = (e, λ i. elim i [ ])
deactivate_all-get m (old ∷ olds) h s e a =
    let (e1, out) = deactivate_all-get (deactivate m old) olds h s e a in
    let (e2, other) = deactivate-get m old h s e1 a in
    (e2, λ i. elim i [ inl same ↦ other same | inr j ↦ out j ])

deactivate-index :
    (m : SessionManager) (old : Text)
    → ((deactivate m old).user_sessions ≡ m.user_sessions)
      × ((deactivate m old).max_sessions_per_user ≡ m.max_sessions_per_user)
unfolding deactivate
deactivate-index m old = (refl, refl)

pub deactivate_all-index :
    (m : SessionManager) (olds : List Text)
    → ((deactivate_all m olds).user_sessions ≡ m.user_sessions)
      × ((deactivate_all m olds).max_sessions_per_user ≡ m.max_sessions_per_user)
unfolding deactivate_all deactivate
deactivate_all-index m [] = (refl, refl)
deactivate_all-index m (old ∷ olds) =
    let (u, k) = deactivate_all-index (deactivate m old) olds in
    let (u1, k1) = deactivate-index m old in (u ∙ u1, k ∙ k1)
