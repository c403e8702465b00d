-- ===== src/Deployment/Releases/Rollback.antt =====
-- A release is rolled back once, and then stays as it is.
use xira_net.Common.{
  ℕ, ◌≡◌, refl, ap, ◌∙◌, Bool, true, false, not, none, some, List, [], ◌∷◌, get, get-insert_self,
  Text, codes, if◌then◌else◌, nat_eq, text_eq,
}
use xira_net.Deployment.Releases.{
  Release, ReleaseStrategy, active, rolled_back, is_active, flip_color, Releases, create, flipped,
  undone, switch_found, switch_in, switch, upstream_of, active_upstream, rollback_found,
  rollback_in, check_rollback,
}

module _ {Rate : Type 0} (at_most : Rate → Rate → Bool) where
  check-idle :
      (now : ℕ) (rate : Rate) (r : Release Rate)
      → r.status ≡ rolled_back
      → rollback_found at_most now rate r ≡ (false, r)
  unfolding rollback_found
  check-idle now rate r h =
      ap
        (λ s.
          if not (is_active s)
          then (false, r)
          else if at_most rate r.error_threshold
          then (false, r)
          else (true, undone at_most now r))
        h

  switch-idle :
      (now : ℕ) (r : Release Rate) → r.status ≡ rolled_back → switch_found at_most now r ≡ (none, r)
  unfolding switch_found
  switch-idle now r h =
      ap
        (λ s.
          if is_active s
          then (some (flip_color r.active_color), flipped at_most now r)
          else (none, r))
        h

  -- Calls on one release, at their times.
  pub data Call : Type 0 where
    switches : ℕ → Call
    checks : ℕ → Rate → Call

  call : Text → Call → Releases at_most → Releases at_most
  call id (switches now) m = (switch at_most now id m).1
  call id (checks now rate) m = (check_rollback at_most now rate id m).1

  pub calls : Text → List Call → Releases at_most → Releases at_most
  calls id [] m = m
  calls id (c ∷ cs) m = calls id cs (call id c m)

  switched-idle :
      (now : ℕ) (id : Text) (m : Releases at_most) (r : Release Rate)
      → r.status ≡ rolled_back
      → get id (switch_in at_most now id m (some r)).1 ≡ some r
  unfolding switch_in
  switched-idle now id m r s =
      get-insert_self id (switch_found at_most now r).1 m ∙ ap (λ p. some p.1) (switch-idle now r s)

  checked-idle :
      (now : ℕ) (rate : Rate) (id : Text) (m : Releases at_most) (r : Release Rate)
      → r.status ≡ rolled_back
      → get id (rollback_in at_most now rate id m (some r)).1 ≡ some r
  unfolding rollback_in
  checked-idle now rate id m r s =
      get-insert_self id (rollback_found at_most now rate r).1 m
      ∙ ap (λ p. some p.1) (check-idle now rate r s)

  call-rolled_back :
      (id : Text) (c : Call) (m : Releases at_most) (r : Release Rate)
      → get id m ≡ some r
      → r.status ≡ rolled_back
      → get id (call id c m) ≡ some r
  unfolding call switch check_rollback
  call-rolled_back id (switches now) m r h s =
      ap (λ o. get id (switch_in at_most now id m o).1) h ∙ switched-idle now id m r s
  call-rolled_back id (checks now rate) m r h s =
      ap (λ o. get id (rollback_in at_most now rate id m o).1) h ∙ checked-idle now rate id m r s

  -- A release that was rolled back stays as it is, whatever switches and checks follow.
  pub calls-rolled_back :
      (id : Text) (cs : List Call) (m : Releases at_most) (r : Release Rate)
      → get id m ≡ some r
      → r.status ≡ rolled_back
      → get id (calls id cs m) ≡ some r
  unfolding calls
  calls-rolled_back id [] m r h s = h
  calls-rolled_back id (c ∷ cs) m r h s =
      calls-rolled_back id cs (call id c m) r (call-rolled_back id c m r h s) s

  upstream-rollback_in :
      (now : ℕ) (rate : Rate) (id : Text) (m : Releases at_most) (r : Release Rate)
      → active_upstream at_most id (rollback_in at_most now rate id m (some r)).1
        ≡ some (upstream_of at_most (rollback_found at_most now rate r).1)
  unfolding active_upstream rollback_in
  upstream-rollback_in now rate id m r =
      ap (λ o. elim o [ none ↦ none | some x ↦ some (upstream_of at_most x) ])
        (get-insert_self id (rollback_found at_most now rate r).1 m)

  rollback_found-active :
      (now : ℕ) (rate : Rate) (r : Release Rate)
      → r.status ≡ active
      → at_most rate r.error_threshold ≡ false
      → rollback_found at_most now rate r ≡ (true, undone at_most now r)
  unfolding rollback_found
  rollback_found-active now rate r a h =
      ap
        (λ s.
          if not (is_active s)
          then (false, r)
          else if at_most rate r.error_threshold
          then (false, r)
          else (true, undone at_most now r))
        a
      ∙ ap (λ b. if b then (false, r) else (true, undone at_most now r)) h

  -- A release that was never switched is rolled back onto its new upstream, when the error rate is above the threshold.
  create-check_rollback :
      (id service blue green : Text) (now later : ℕ) (strategy : ReleaseStrategy)
      (threshold rate : Rate) (m : Releases at_most)
      → at_most rate threshold ≡ false
      → active_upstream at_most id
          (check_rollback at_most later rate id
            (create at_most id now service blue green strategy threshold m)).1
        ≡ some green
  unfolding check_rollback create upstream_of
  create-check_rollback id service blue green now later strategy threshold rate m h =
      ap (λ o. active_upstream at_most id (rollback_in at_most later rate id m' o).1)
        (get-insert_self id r m)
      ∙ upstream-rollback_in later rate id m' r
      ∙ ap (λ p. some (upstream_of at_most p.1)) (rollback_found-active later rate r refl h)
      ∙ green_side
    where
      r : Release Rate
      r = record {
        id = id;
        service = service;
        strategy = strategy;
        status = active;
        blue_upstream = blue;
        green_upstream = green;
        active_color = codes "blue";
        error_threshold = threshold;
        created_at = now;
        switched_at = none;
        rollback_count = 0;
      }

      m' : Releases at_most
      m' = create at_most id now service blue green strategy threshold m

      green_side : some (upstream_of at_most (undone at_most later r)) ≡ some green
      green_side = refl
