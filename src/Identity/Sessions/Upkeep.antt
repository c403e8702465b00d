-- ===== src/Identity/Sessions/Upkeep.antt =====
-- The other operations keep the index.
use xira_net.Common.{
  ℕ, ◌≤◌, ◌≡◌, refl, sym, ap, ◌∙◌, subst, ◌≢◌, inl, inr, Bool, true, false, not, ◌||◌, Option, none,
  some, List, [], ◌∷◌, arith, Dict, get, remove, modify, get-remove, get-insert, get-modify, Text,
  ◌==◌, ==_iff, length, retain, length-retain-le, In, ltb, if◌then◌else◌, Bool-cases, some_inj,
  nat_eq, text_eq,
}
use mathlib.Core.Option
use xira_net.Identity.Sessions.{
  StorageWrite, Session, SessionManager, BusEvent, tokens_of, or_empty, apply_invalidate_token,
  invalidate_found, delete_session, delete_tokens, apply_invalidate_user, clean, touched,
  validate_found, ip_mismatch,
}
use xira_net.Identity.Sessions.Index.{Live, Indexed, Inv}
use xira_net.Identity.Sessions.Eviction.{In-retain}

-- A token leaves both maps.
abbrev without : SessionManager → Text → Text → SessionManager
without m hashed user = record m {
  sessions = remove hashed m.sessions;
  user_sessions = modify user (retain (λ t. not (t == hashed))) m.user_sessions;
}

or_empty-retain :
    (p : Text → Bool) (b : Bool) (o : Option (List Text))
    → or_empty (if b then Option.map (retain p) o else o)
      ≡ (if b then retain p (or_empty o) else or_empty o)
or_empty-retain p true none = refl
or_empty-retain p true (some ts) = refl
or_empty-retain p false o = refl

not_same : (h k : Text) → (k == h) ≡ false → not (h == k) ≡ true
not_same h k e = ground (arith, ==_iff h k, ==_iff k h)

tokens-modify :
    (m : SessionManager) (hashed user u : Text)
    → tokens_of (without m hashed user) u
      ≡ (if user == u then retain (λ t. not (t == hashed)) (tokens_of m u) else tokens_of m u)
tokens-modify m hashed user u =
    ap or_empty (get-modify user u (retain (λ t. not (t == hashed))) m.user_sessions)
    ∙ or_empty-retain _ (user == u) (get u m.user_sessions)

without-indexed :
    (now : ℕ) (m : SessionManager) (hashed user h : Text) (s : Session)
    → Inv now m
    → (if hashed == h then none else get h m.sessions) ≡ some s
    → Live now s
    → In h (
        if user == s.user_id
        then retain (λ t. not (t == hashed)) (tokens_of m s.user_id)
        else tokens_of m s.user_id)
unfolding Indexed
without-indexed now m hashed user h s inv e l = elim (Bool-cases (hashed == h)) [
  | inl y ↦ let e' : none ≡ some s = rw y at e in ground arith
  | inr n ↦
      let i = inv.indexed h s (rw n at e) l in
      elim (Bool-cases (user == s.user_id)) [
        | inl z ↦ rw z (In-retain _ h (tokens_of m s.user_id) i (not_same h hashed n))
        | inr z ↦ rw z i
      ]
]

shorter :
    (b : Bool) (hashed : Text) (ts : List Text) {most : ℕ}
    → length ts ≤ most
    → length (if b then retain (λ t. not (t == hashed)) ts else ts) ≤ most
shorter true hashed ts l = omega (arith, length-retain-le (λ t. not (t == hashed)) ts, l)
shorter false hashed ts l = l

without-Inv :
    (now : ℕ) (m : SessionManager) (hashed user : Text)
    → Inv now m
    → Inv now (without m hashed user)
unfolding Indexed
without-Inv now m hashed user inv = record {
  indexed = λ h s e l.
      rw (tokens-modify m hashed user s.user_id)
        (without-indexed now m hashed user h s inv (sym (get-remove hashed h m.sessions) ∙ e) l);
  capped = λ u.
      rw (tokens-modify m hashed user u)
        (shorter (user == u) hashed (tokens_of m u) (inv.capped u));
  room = inv.room;
}

-- A log of storage or of the bus does not matter.
pub logs-Inv :
    (now : ℕ) (m : SessionManager) (storage : Option (List StorageWrite))
    (published : List BusEvent)
    → Inv now m
    → Inv now (record m { storage = storage; published = published })
unfolding Indexed
logs-Inv now m storage published inv = record {
  indexed = inv.indexed;
  capped = inv.capped;
  room = inv.room;
}

pub invalidate_found-Inv :
    (now : ℕ) (m : SessionManager) (hashed : Text) (o : Option Session)
    → Inv now m
    → Inv now (invalidate_found m hashed o).1
unfolding invalidate_found
invalidate_found-Inv now m hashed none inv = inv
invalidate_found-Inv now m hashed (some s) inv =
    logs-Inv now (without m hashed s.user_id) _ m.published (without-Inv now m hashed s.user_id inv)

pub clean-Inv :
    (now : ℕ) (xs : List (Text × Text)) (m : SessionManager) → Inv now m → Inv now (clean m xs)
unfolding clean
clean-Inv now [] m inv = inv
clean-Inv now ((hashed, user) ∷ xs) m inv =
    clean-Inv now xs _
      (logs-Inv now (without m hashed user) _ m.published (without-Inv now m hashed user inv))

touched-indexed :
    (now : ℕ) (m : SessionManager) (hashed h : Text) (s x : Session)
    → get hashed m.sessions ≡ some s
    → Inv now m
    → (if hashed == h then some (record s { last_activity = now }) else get h m.sessions) ≡ some x
    → Live now x
    → In h (tokens_of m x.user_id)
unfolding Indexed
touched-indexed now m hashed h s x found inv e l = elim (Bool-cases (hashed == h)) [
  | inl y ↦
      let here = some_inj (rw y at e) in
      let i = inv.indexed hashed s found (subst (λ (z : Session). Live now z) (sym here) l) in
      subst (λ (z : Session). In h (tokens_of m z.user_id)) here
        (subst (λ (k : Text). In k (tokens_of m s.user_id)) ((==_iff hashed h).0 y) i)
  | inr n ↦ inv.indexed h x (rw n at e) l
]

-- A session that was used again keeps its user and its expiry.
touched-Inv :
    (now : ℕ) (m : SessionManager) (token hashed : Text) (s : Session)
    → get hashed m.sessions ≡ some s
    → Inv now m
    → Inv now (touched m now token hashed s).1
unfolding touched Indexed
touched-Inv now m token hashed s found inv = record {
  indexed = λ h x e l.
      touched-indexed now m hashed h s x found inv (sym (get-insert hashed h _ m.sessions) ∙ e) l;
  capped = inv.capped;
  room = inv.room;
}

pub validate_found-Inv :
    (now : ℕ) (m : SessionManager) (token hashed : Text) (ip : Option Text) (o : Option Session)
    → get hashed m.sessions ≡ o
    → Inv now m
    → Inv now (validate_found m now token hashed ip o).1
unfolding validate_found apply_invalidate_token
validate_found-Inv now m token hashed ip none e inv = inv
validate_found-Inv now m token hashed ip (some s) e inv =
    elim (Bool-cases (not s.active || ltb s.expires_at now)) [
      | inl y ↦ rw y inv
      | inr n ↦ elim (Bool-cases (ip_mismatch s.ip ip)) [
        | inl z ↦ rw (n, z) (invalidate_found-Inv now m hashed (get hashed m.sessions) inv)
        | inr z ↦ rw (n, z) (touched-Inv now m token hashed s e inv)
      ]
    ]

-- After the loop none of the tokens has a session, and nothing else changed.
delete_tokens-get :
    (ts : List Text) (m : SessionManager) (h : Text) (s : Session)
    → get h (delete_tokens m ts).1.sessions ≡ some s
    → (get h m.sessions ≡ some s) × (In h ts → ⊥)
unfolding delete_tokens delete_session
delete_tokens-get [] m h s e = (e, λ i. elim i [ ])
delete_tokens-get (t ∷ ts) m h s e =
    let (e1, out) = delete_tokens-get ts (delete_session m t) h s e in
    let at = get-remove t h m.sessions in
    elim (Bool-cases (t == h)) [
      | inl y ↦ let no : none ≡ some s = sym (rw y at at) ∙ e1 in ground arith
      | inr n ↦ (
        sym (rw n at at) ∙ e1,
        λ i. elim i [ inl same ↦ ground (arith, ==_iff t h) | inr j ↦ out j ],
      )
    ]

delete_tokens-index :
    (ts : List Text) (m : SessionManager)
    → ((delete_tokens m ts).1.user_sessions ≡ m.user_sessions)
      × ((delete_tokens m ts).1.max_sessions_per_user ≡ m.max_sessions_per_user)
unfolding delete_tokens delete_session
delete_tokens-index [] m = (refl, refl)
delete_tokens-index (t ∷ ts) m = delete_tokens-index ts (delete_session m t)

tokens-remove :
    (user u : Text) (us : Dict Text (List Text))
    → or_empty (get u (remove user us)) ≡ (if user == u then [] else or_empty (get u us))
tokens-remove user u us = elim (Bool-cases (user == u)) [
  | inl y ↦ rw (get-remove user u us, y) refl
  | inr n ↦ rw (get-remove user u us, n) refl
]

-- The tokens of each user after a forced logout of one.
tokens-apply_invalidate_user :
    (m : SessionManager) (user u : Text)
    → tokens_of (apply_invalidate_user m user).1 u ≡ (if user == u then [] else tokens_of m u)
unfolding apply_invalidate_user
tokens-apply_invalidate_user m user u =
    tokens-remove user u _
    ∙ ap (λ (us : Dict Text (List Text)). if user == u then [] else or_empty (get u us))
        (delete_tokens-index (tokens_of m user) m).0

-- No session of the user can be used any more.
pub apply_invalidate_user-other :
    (now : ℕ) (m : SessionManager) (user h : Text) (s : Session)
    → Inv now m
    → get h (apply_invalidate_user m user).1.sessions ≡ some s
    → Live now s
    → s.user_id ≢ user
unfolding apply_invalidate_user Indexed
apply_invalidate_user-other now m user h s inv e l same =
    let (e1, out) = delete_tokens-get (tokens_of m user) m h s e in
    out (subst (λ (u : Text). In h (tokens_of m u)) same (inv.indexed h s e1 l))

kept_most :
    (m : SessionManager) (user : Text)
    → (apply_invalidate_user m user).1.max_sessions_per_user ≡ m.max_sessions_per_user
unfolding apply_invalidate_user
kept_most m user = (delete_tokens-index (tokens_of m user) m).1

if_capped :
    (b : Bool) (ts : List Text) (most : ℕ) → length ts ≤ most → length (if b then [] else ts) ≤ most
if_capped true ts most l = omega arith
if_capped false ts most l = l

others_listed :
    (now : ℕ) (m : SessionManager) (user h : Text) (s : Session)
    → Inv now m
    → get h (apply_invalidate_user m user).1.sessions ≡ some s
    → Live now s
    → In h (if user == s.user_id then [] else tokens_of m s.user_id)
unfolding apply_invalidate_user Indexed
others_listed now m user h s inv e l = elim (Bool-cases (user == s.user_id)) [
  | inl y ↦
      absurd
        (apply_invalidate_user-other now m user h s inv e l (sym ((==_iff user s.user_id).0 y)))
  | inr n ↦ rw n (inv.indexed h s (delete_tokens-get (tokens_of m user) m h s e).0 l)
]

pub apply_invalidate_user-Inv :
    (now : ℕ) (m : SessionManager) (user : Text)
    → Inv now m
    → Inv now (apply_invalidate_user m user).1
unfolding Indexed
apply_invalidate_user-Inv now m user inv =
    let same : (apply_invalidate_user m user).1.max_sessions_per_user ≡ m.max_sessions_per_user =
      kept_most m user in
    record {
      indexed = λ h s e l.
          rw (tokens-apply_invalidate_user m user s.user_id) (others_listed now m user h s inv e l);
      capped = λ u.
          rw (tokens-apply_invalidate_user m user u, same)
            (if_capped (user == u) (tokens_of m u) _ (inv.capped u));
      room = rw same inv.room;
    }
