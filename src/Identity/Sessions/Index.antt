-- ===== src/Identity/Sessions/Index.antt =====
-- The index by user lists every session that can still be used, and no more tokens than allowed.
use xira_net.Common.{
  ℕ, ◌≤◌, ◌≡◌, refl, sym, ap, ◌∙◌, subst, inl, inr, Bool, true, ◌||◌, Option, some, List, [], ◌∷◌,
  ◌++◌, arith, Dict, get, insert, get-insert, Text, ◌==◌, ==_refl, ==_iff, length, retain, In,
  if◌then◌else◌, le→leb, Bool-cases, some_inj, nat_eq, text_eq,
}
use xira_net.Identity.Sessions.{
  Session, SessionManager, tokens_of, or_empty, is_live, evict_oldest, deactivate_all,
  insert_session, create,
}
use xira_net.Identity.Sessions.Eviction.{
  In-retain, In-append-left, retain-append, length-evict_oldest, evict_oldest-In, evict_oldest-last,
  deactivate_all-get, deactivate_all-index,
}

-- The session can be used at this time.
abbrev pub Live : ℕ → Session → Type 0
Live now s = (s.active ≡ true) × (now ≤ s.expires_at)

-- A session that can be used now or later stands in the index under its user.
unfoldable pub Indexed : ℕ → SessionManager → Type 0
Indexed now m =
    (h : Text) (s : Session) → get h m.sessions ≡ some s → Live now s → In h (tokens_of m s.user_id)

-- The same, and no user has more tokens than allowed.
pub record Inv (now : ℕ) (m : SessionManager) : Type 0 where
  pub indexed : Indexed now m
  pub capped : (user : Text) → length (tokens_of m user) ≤ m.max_sessions_per_user
  pub room : 1 ≤ m.max_sessions_per_user

tokens-insert :
    (u user : Text) (ts : List Text) (us : Dict Text (List Text))
    → or_empty (get u (insert user ts us)) ≡ (if user == u then ts else or_empty (get u us))
tokens-insert u user ts us = elim (Bool-cases (user == u)) [
  | inl y ↦ rw (get-insert user u ts us, y) refl
  | inr n ↦ rw (get-insert user u ts us, n) refl
]

module _ (m : SessionManager) (now : ℕ) (hashed : Text) (stored : Session) (p : Text → Bool)
    (kept : p hashed ≡ true)
    (live : (h : Text) (s : Session) → get h m.sessions ≡ some s → Live now s → p h ≡ true)
    (inv : Inv now m) where
  abbrev evicted : List Text × List Text
  evicted =
      evict_oldest m.max_sessions_per_user (retain p (tokens_of m stored.user_id ++ hashed ∷ []))

  abbrev created : SessionManager
  created =
      insert_session
        (deactivate_all
          (record m { user_sessions = insert stored.user_id evicted.1 m.user_sessions }) evicted.0)
        hashed stored

  tokens_of-created :
      (u : Text) → tokens_of created u ≡ (if stored.user_id == u then evicted.1 else tokens_of m u)
  unfolding insert_session
  tokens_of-created u =
      ap (λ (us : Dict Text (List Text)). or_empty (get u us)) (deactivate_all-index _ evicted.0).0
      ∙ tokens-insert u stored.user_id evicted.1 m.user_sessions

  newest_listed : In hashed evicted.1
  newest_listed =
      rw (retain-append p (tokens_of m stored.user_id) (hashed ∷ []), kept)
        (evict_oldest-last m.max_sessions_per_user hashed (retain p (tokens_of m stored.user_id))
          inv.room)

  old_listed :
      (h : Text) (s : Session)
      → get h m.sessions ≡ some s
      → Live now s
      → (In h evicted.0 → ⊥)
      → In h (if stored.user_id == s.user_id then evicted.1 else tokens_of m s.user_id)
  unfolding Indexed
  old_listed h s e l out =
      let i = inv.indexed h s e l in
      elim (Bool-cases (stored.user_id == s.user_id)) [
        | inl y ↦
            let same : s.user_id ≡ stored.user_id = sym ((==_iff stored.user_id s.user_id).0 y) in
            let j = subst (λ (u : Text). In h (tokens_of m u)) same i in
            let k = In-retain p h _ (In-append-left h _ (hashed ∷ []) j) (live h s e l) in
            rw y (elim (evict_oldest-In m.max_sessions_per_user h _ k) [
              | inl gone ↦ absurd (out gone)
              | inr left ↦ left
            ])
        | inr n ↦ rw n i
      ]

  created-Indexed : Indexed now created
  unfolding Indexed insert_session
  created-Indexed h s e l =
      let md =
        deactivate_all
          (record m { user_sessions = insert stored.user_id evicted.1 m.user_sessions })
          evicted.0 in
      let at = get-insert hashed h stored md.sessions in
      elim (Bool-cases (hashed == h)) [
        | inl y ↦
            let here : stored ≡ s = some_inj (sym (rw y at at) ∙ e) in
            let own : In hashed (tokens_of created stored.user_id) =
              rw (tokens_of-created stored.user_id, ==_refl stored.user_id) newest_listed in
            subst (λ (x : Session). In h (tokens_of created x.user_id)) here
              (subst (λ (x : Text). In x (tokens_of created stored.user_id)) ((==_iff hashed h).0 y)
                own)
        | inr n ↦
            let (e1, out) = deactivate_all-get _ evicted.0 h s (sym (rw n at at) ∙ e) l.0 in
            rw (tokens_of-created s.user_id) (old_listed h s e1 l out)
      ]

  created-capped : (u : Text) → length (tokens_of created u) ≤ created.max_sessions_per_user
  unfolding insert_session
  created-capped u =
      let few =
        length-evict_oldest m.max_sessions_per_user
          (retain p (tokens_of m stored.user_id ++ hashed ∷ [])) in
      let old = inv.capped u in
      rw (tokens_of-created u, (deactivate_all-index _ evicted.0).1)
        (elim (Bool-cases (stored.user_id == u)) [ inl y ↦ rw y few | inr n ↦ rw n old ])

  pub created-Inv : Inv now created
  unfolding insert_session
  created-Inv = record {
    indexed = created-Indexed;
    capped = created-capped;
    room = rw ((deactivate_all-index _ evicted.0).1) inv.room;
  }

pub later-Inv : (now later : ℕ) (m : SessionManager) → now ≤ later → Inv now m → Inv later m
unfolding Indexed
later-Inv now later m l inv = record {
  indexed = λ h s e live. inv.indexed h s e (live.0, omega (arith, l, live.1));
  capped = inv.capped;
  room = inv.room;
}

or-true : (a b : Bool) → b ≡ true → (a || b) ≡ true
or-true a b e = ground arith

is_live-lem :
    (now : ℕ) (o : Option Session) (s : Session) → o ≡ some s → Live now s → is_live now o ≡ true
unfolding is_live
is_live-lem now o s e l = rw (e, l.0) (le→leb now s.expires_at l.1)

pub create-Inv :
    (hash_token : Text → Text) (m : SessionManager) (now now2 : ℕ)
    (user_id token ip user_agent : Text) (ttl_secs : ℕ)
    → Inv now2 m
    → Inv now2 (create hash_token m now now2 user_id token ip user_agent ttl_secs).1
unfolding create
create-Inv hash_token m now now2 user_id token ip user_agent ttl_secs inv =
    created-Inv m now2 (hash_token token) _
      (λ t. is_live now2 (get t m.sessions) || t == hash_token token)
      (or-true _ _ (==_refl (hash_token token)))
      (λ h s e l. ap (λ b. b || h == hash_token token) (is_live-lem now2 (get h m.sessions) s e l))
      inv
