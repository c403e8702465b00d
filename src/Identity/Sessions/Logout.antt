-- ===== src/Identity/Sessions/Logout.antt =====
-- Logging in and out: what is accepted after a creation, an invalidation or a forced logout.
use xira_net.Common.{
  ℕ, ◌+◌, ◌≤◌, ◌≡◌, refl, sym, ap, ◌∙◌, ◌≢◌, inl, inr, Bool, true, false, not, ◌&&◌, ◌||◌, Option,
  none, some, List, arith, Dict, get, get-remove, get-insert, Text, ==_refl, add64, ltb, Bool-cases,
  some_inj, nat_eq, text_eq,
}
use xira_net.Identity.Sessions.{
  Session, SessionManager, apply_invalidate_token, invalidate_found, insert_session,
  apply_invalidate_user, invalidate_all, touched, validate_found, create, validate_with_request,
  invalidate, new, ip_mismatch,
}
use xira_net.Identity.Sessions.Index.{Live, later-Inv}
use xira_net.Identity.Sessions.Upkeep.{apply_invalidate_user-other}
use xira_net.Identity.Sessions.Validity.{Op, run, run-new-Inv}

-- An accepted token has a session of the same user that can be used.
validate_found-some :
    (m : SessionManager) (now : ℕ) (token hashed : Text) (ip : Option Text) (o : Option Session)
    (s : Session)
    → (validate_found m now token hashed ip o).0 ≡ some s
    → (s0 : Session) × (o ≡ some s0) × Live now s0 × (s0.user_id ≡ s.user_id)
unfolding validate_found touched
validate_found-some m now token hashed ip none s e = absurd (ground arith)
validate_found-some m now token hashed ip (some s0) s e =
    elim (Bool-cases (not s0.active || ltb s0.expires_at now)) [
      | inl y ↦ let no : none ≡ some s = rw y at e in absurd (ground arith)
      | inr n ↦ elim (Bool-cases (ip_mismatch s0.ip ip)) [
        | inl z ↦ let no : none ≡ some s = rw (n, z) at e in absurd (ground arith)
        | inr z ↦
            let same = some_inj (rw (n, z) at e) in
            (s0, refl, ground arith, ap (λ (x : Session). x.user_id) same)
      ]
    ]

invalidate_all-sessions :
    (m : SessionManager) (user : Text)
    → (invalidate_all m user).1.sessions ≡ (apply_invalidate_user m user).1.sessions
unfolding invalidate_all
invalidate_all-sessions m user = elim (Bool-cases (ltb 0 (apply_invalidate_user m user).0)) [
  | inl y ↦ rw y refl
  | inr n ↦ rw n refl
]

-- Right after invalidate_all of a user, in any history of a new manager whose clock does not go
-- back, a token that is accepted, then or later, with whatever address, belongs to another
-- user.
pub invalidate_all-validate :
    (hash_token : Text → Text) (ops : List (ℕ × Op)) (now most wait : ℕ) (user token : Text)
    (ip : Option Text) (s : Session)
    → let (now', m) = run hash_token now (new most) ops in
      (validate_with_request hash_token (invalidate_all m user).1 (now' + wait) token ip).0 ≡ some s
      → s.user_id ≢ user
unfolding validate_with_request
invalidate_all-validate hash_token ops now most wait user token ip s e same =
    let r = run hash_token now (new most) ops in
    let inv = later-Inv r.0 (r.0 + wait) r.1 (omega arith) (run-new-Inv hash_token ops now most) in
    let (s0, found, live, own) = validate_found-some _ _ token (hash_token token) ip _ s e in
    apply_invalidate_user-other (r.0 + wait) r.1 user (hash_token token) s0 inv
      (sym (ap (λ m. get (hash_token token) m) (invalidate_all-sessions r.1 user)) ∙ found) live
      (own ∙ same)

and-not-true : (b : Bool) → (b && not true) ≡ false
and-not-true b = ground arith

own_address : (ip : Text) → ip_mismatch ip (some ip) ≡ false
unfolding ip_mismatch
own_address ip = rw (==_refl ip) (and-not-true _)

validate_found-Live :
    (m : SessionManager) (now : ℕ) (token hashed : Text) (ip : Option Text) (s : Session)
    → Live now s
    → ip_mismatch s.ip ip ≡ false
    → (validate_found m now token hashed ip (some s)).0
      ≡ some (record s { last_activity = now; token = token })
unfolding validate_found touched
validate_found-Live m now token hashed ip s (a, l) z =
    let n : (not s.active || ltb s.expires_at now) ≡ false = ground arith in rw (n, z) refl

-- A token that was just given out is accepted until it expires, from the address it was given
-- to, and then shows the user, the address and the times of its session.
pub create-validate_with_request :
    (hash_token : Text → Text) (m : SessionManager) (now now2 later : ℕ)
    (user token ip user_agent : Text) (ttl : ℕ)
    → later ≤ add64 now ttl
    → let (s, m') = create hash_token m now now2 user token ip user_agent ttl in
      (validate_with_request hash_token m' later token (some ip)).0
      ≡ some (record s { last_activity = later })
unfolding create validate_with_request insert_session
create-validate_with_request hash_token m now now2 later user token ip user_agent ttl l =
    rw (get-insert (hash_token token) (hash_token token) _ _, ==_refl (hash_token token))
      (validate_found-Live _ later token (hash_token token) (some ip) _ (refl, l) (own_address ip))

-- What a removed token is answered.
gone-validate :
    (hash_token : Text → Text) (m : SessionManager) (token : Text) (later : ℕ) (ip : Option Text)
    → get (hash_token token) m.sessions ≡ none
    → (validate_with_request hash_token m later token ip).0 ≡ none
unfolding validate_with_request validate_found
gone-validate hash_token m token later ip e = rw e refl

apply_invalidate_token-get :
    (m : SessionManager) (hashed : Text) (o : Option Session)
    → get hashed m.sessions ≡ o
    → get hashed (invalidate_found m hashed o).1.sessions ≡ none
unfolding invalidate_found
apply_invalidate_token-get m hashed none e = e
apply_invalidate_token-get m hashed (some s) e =
    get-remove hashed hashed m.sessions ∙ rw (==_refl hashed) refl

invalidate-sessions :
    (hash_token : Text → Text) (m : SessionManager) (token : Text)
    → (invalidate hash_token m token).1.sessions
      ≡ (apply_invalidate_token m (hash_token token)).1.sessions
unfolding invalidate
invalidate-sessions hash_token m token =
    elim (Bool-cases (apply_invalidate_token m (hash_token token)).0) [
      | inl y ↦ rw y refl
      | inr n ↦ rw n refl
    ]

-- A token whose session can be used is not accepted after it was invalidated, at any time and
-- from any address; if it comes from a wrong address it is refused, and is not accepted after
-- that from its own address either.
pub invalidate-validate :
    (hash_token : Text → Text) (m : SessionManager) (token : Text) (now later : ℕ)
    (ip wrong : Option Text) (s : Session)
    → get (hash_token token) m.sessions ≡ some s
    → Live now s
    → ip_mismatch s.ip wrong ≡ true
    → let (answer, m') = validate_with_request hash_token m now token wrong in
      ((validate_with_request hash_token (invalidate hash_token m token).1 later token ip).0 ≡ none)
      × (answer ≡ none)
      × ((validate_with_request hash_token m' later token ip).0 ≡ none)
unfolding validate_with_request validate_found apply_invalidate_token
invalidate-validate hash_token m token now later ip wrong s e (a, l) z =
    let h = hash_token token in
    let n : (not s.active || ltb s.expires_at now) ≡ false = ground arith in
    let removed = apply_invalidate_token-get m h (get h m.sessions) refl in
    (
      gone-validate hash_token _ token later ip (
          ap (λ (d : Dict Text Session). get h d) (invalidate-sessions hash_token m token)
          ∙ removed),
      rw (e, n, z) refl,
      gone-validate hash_token _ token later ip (rw (e, n, z) removed),
    )
