-- ===== src/Identity/Sessions/Validity.antt =====
-- Which tokens are accepted, in any history of the manager.
use xira_net.Common.{
  ℕ, ◌+◌, refl, inl, inr, Option, List, [], ◌∷◌, arith, get, Text, ltb, Bool-cases, nat_eq, text_eq,
}
use xira_net.Identity.Sessions.{
  SessionManager, BusEvent, session_invalidate_token, session_invalidate_user, waf_rule_added,
  waf_rule_removed, apply_invalidate_token, invalidate_found, apply_invalidate_user, invalidate_all,
  handle, cleanup_expired, create, validate_with_request, invalidate, new,
}
use xira_net.Identity.Sessions.Index.{Indexed, Inv, later-Inv, create-Inv}
use xira_net.Identity.Sessions.Upkeep.{
  logs-Inv, invalidate_found-Inv, clean-Inv, validate_found-Inv, apply_invalidate_user-Inv,
}

-- The calls of the manager; a creation reads the clock again some time after it began.
pub data Op : Type 0 where
  creates : (pause : ℕ) (user_id token ip user_agent : Text) (ttl_secs : ℕ) → Op
  validates : (token : Text) (expected_ip : Option Text) → Op
  invalidates : (token : Text) → Op
  invalidates_all : (user_id : Text) → Op
  handles : BusEvent → Op
  cleans_up : Op

module _ (hash_token : Text → Text) where
  unfoldable pub step : ℕ → SessionManager → Op → ℕ × SessionManager
  step now m (creates pause user_id token ip user_agent ttl_secs) =
      (now + pause, (create hash_token m now (now + pause) user_id token ip user_agent ttl_secs).1)
  step now m (validates token expected_ip) =
      (now, (validate_with_request hash_token m now token expected_ip).1)
  step now m (invalidates token) = (now, (invalidate hash_token m token).1)
  step now m (invalidates_all user_id) = (now, (invalidate_all m user_id).1)
  step now m (handles event) = (now, handle m event)
  step now m cleans_up = (now, (cleanup_expired m now).1)

  -- Calls with the time that passes before each: the clock does not go back.
  unfoldable pub run : ℕ → SessionManager → List (ℕ × Op) → ℕ × SessionManager
  unfolding step
  run now m [] = (now, m)
  run now m ((wait, op) ∷ ops) = let (now', m') = step (now + wait) m op in run now' m' ops

invalidate-Inv :
    (hash_token : Text → Text) (now : ℕ) (m : SessionManager) (token : Text)
    → Inv now m
    → Inv now (invalidate hash_token m token).1
unfolding invalidate apply_invalidate_token
invalidate-Inv hash_token now m token inv =
    let r = invalidate_found-Inv now m (hash_token token) (get (hash_token token) m.sessions) inv in
    elim (Bool-cases
      (invalidate_found m (hash_token token) (get (hash_token token) m.sessions)).0) [
        | inl y ↦ rw y (logs-Inv now _ _ _ r)
        | inr n ↦ rw n r
      ]

invalidate_all-Inv :
    (now : ℕ) (m : SessionManager) (user : Text) → Inv now m → Inv now (invalidate_all m user).1
unfolding invalidate_all
invalidate_all-Inv now m user inv =
    let r = apply_invalidate_user-Inv now m user inv in
    elim (Bool-cases (ltb 0 (apply_invalidate_user m user).0)) [
      | inl y ↦ rw y (logs-Inv now _ _ _ r)
      | inr n ↦ rw n r
    ]

handle-Inv :
    (now : ℕ) (m : SessionManager) (event : BusEvent) → Inv now m → Inv now (handle m event)
unfolding handle apply_invalidate_token
handle-Inv now m (session_invalidate_token hashed) inv =
    invalidate_found-Inv now m hashed (get hashed m.sessions) inv
handle-Inv now m (session_invalidate_user user) inv = apply_invalidate_user-Inv now m user inv
handle-Inv now m (waf_rule_added _ _ _) inv = inv
handle-Inv now m (waf_rule_removed _) inv = inv

step-Inv :
    (hash_token : Text → Text) (now : ℕ) (m : SessionManager) (op : Op)
    → Inv now m
    → let (now', m') = step hash_token now m op in Inv now' m'
unfolding step validate_with_request cleanup_expired
step-Inv hash_token now m (creates pause user token ip ua ttl) inv =
    create-Inv hash_token m now (now + pause) user token ip ua ttl
      (later-Inv now (now + pause) m (omega arith) inv)
step-Inv hash_token now m (validates token ip) inv =
    validate_found-Inv now m token (hash_token token) ip _ refl inv
step-Inv hash_token now m (invalidates token) inv = invalidate-Inv hash_token now m token inv
step-Inv hash_token now m (invalidates_all user) inv = invalidate_all-Inv now m user inv
step-Inv hash_token now m (handles event) inv = handle-Inv now m event inv
step-Inv hash_token now m cleans_up inv = clean-Inv now _ m inv

run_keeps :
    (hash_token : Text → Text) (ops : List (ℕ × Op)) (now : ℕ) (m : SessionManager)
    → Inv now m
    → let (now', m') = run hash_token now m ops in Inv now' m'
unfolding run
run_keeps hash_token [] now m inv = inv
run_keeps hash_token ((wait, op) ∷ ops) now m inv =
    run_keeps hash_token ops _ _
      (step-Inv hash_token (now + wait) m op (later-Inv now (now + wait) m (omega arith) inv))

new-Inv : (now most : ℕ) → Inv now (new most)
unfolding new Indexed get
new-Inv now most = record {
  indexed = λ h s e l. absurd (ground arith);
  capped = λ u. omega arith;
  room = omega arith;
}

-- After any calls on a new manager, with a clock that does not go back, every session that can
-- be used is listed under its user, and no user has more listed sessions than allowed.
pub run-new-Inv :
    (hash_token : Text → Text) (ops : List (ℕ × Op)) (now most : ℕ)
    → let (now', m) = run hash_token now (new most) ops in Inv now' m
run-new-Inv hash_token ops now most = run_keeps hash_token ops now (new most) (new-Inv now most)
