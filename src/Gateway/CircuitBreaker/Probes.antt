-- ===== src/Gateway/CircuitBreaker/Probes.antt =====
-- The first probe after the wait, and the refusals while it is out.
use xira_net.Common.{
  ℕ, ◌-◌, ◌≤◌, ◌≡◌, ap, ◌∙◌, none, some, arith, get, insert, get-insert_self, ok, err, nat_eq,
  text_eq,
}
use xira_net.Gateway.CircuitBreaker.{
  CircuitBreakerManager, CircuitBreakerEntry, ConfigState, opened, half_open, allow_request,
  from_secs, allow, entry_or_insert, fresh_entry,
}

entry_or_insert-found :
    (m : CircuitBreakerManager) (now id : ℕ) (e : CircuitBreakerEntry)
    → get id m.breakers ≡ some e
    → entry_or_insert now id m ≡ e
unfolding entry_or_insert
entry_or_insert-found m now id e found =
    ap (λ o. elim o [ none ↦ fresh_entry now | some x ↦ x ]) found

allow_request-found :
    (m : CircuitBreakerManager) (now id : ℕ) (e : CircuitBreakerEntry)
    → get id m.breakers ≡ some e
    → allow_request m now id ≡ (
      record m { breakers = insert id (allow m.config now e).0 m.breakers },
      (allow m.config now e).1,
    )
unfolding allow_request
allow_request-found m now id e found =
    ap
      (λ (x : CircuitBreakerEntry). (
        record m { breakers = insert id (allow m.config now x).0 m.breakers },
        (allow m.config now x).1,
      ))
      (entry_or_insert-found m now id e found)

allow-opened :
    (c : ConfigState) (now last : ℕ) (e : CircuitBreakerEntry)
    → e.state ≡ opened
    → e.last_failure_time ≡ some last
    → from_secs c.reset_timeout_secs ≤ now - last
    → ((allow c now e).0.state ≡ half_open)
      × ((allow c now e).0.in_flight_probes ≡ 1)
      × ((allow c now e).1 ≡ ok tt)
unfolding allow
allow-opened c now last e st lf waited = ground (arith, st, lf, waited)

allow-half_open :
    (c : ConfigState) (now : ℕ) (e : CircuitBreakerEntry)
    → e.state ≡ half_open
    → e.in_flight_probes ≡ 1
    → c.half_open_max_requests ≡ 1
    → (allow c now e).1 ≡ err half_open
unfolding allow
allow-half_open c now e st one most = ground (arith, st, one, most)

-- The entry that the first probe after the wait leaves.
pub probe-entry :
    (m : CircuitBreakerManager) (now id last : ℕ) (e : CircuitBreakerEntry)
    → get id m.breakers ≡ some e
    → e.state ≡ opened
    → e.last_failure_time ≡ some last
    → from_secs m.config.reset_timeout_secs ≤ now - last
    → (p : CircuitBreakerEntry) × (get id (allow_request m now id).0.breakers ≡ some p)
      × (p.state ≡ half_open)
      × (p.in_flight_probes ≡ 1)
      × ((allow_request m now id).1 ≡ ok tt)
probe-entry m now id last e found st lf waited =
    let f = allow_request-found m now id e found in
    let o = allow-opened m.config now last e st lf waited in
    (
      (allow m.config now e).0,
      ap (λ q. get id q.0.breakers) f ∙ get-insert_self id (allow m.config now e).0 m.breakers,
      o.0,
      o.1,
      ap (λ q. q.1) f ∙ o.2,
    )

pub half_open-refuses :
    (m : CircuitBreakerManager) (now id : ℕ) (p : CircuitBreakerEntry)
    → get id m.breakers ≡ some p
    → p.state ≡ half_open
    → p.in_flight_probes ≡ 1
    → m.config.half_open_max_requests ≡ 1
    → (allow_request m now id).1 ≡ err half_open
half_open-refuses m now id p found st one most =
    ap (λ q. q.1) (allow_request-found m now id p found)
    ∙ allow-half_open m.config now p st one most
