-- ===== src/Gateway/CircuitBreaker/Manager/Saturated.antt =====
-- A half-open breaker whose only probe is out, under any calls that bring no outcome.
use xira_net.Common.{
  ℕ, ◌≡◌, refl, sym, ap, ◌∙◌, subst, inl, inr, true, Option, some, List, [], ◌∷◌, arith, get, ◌==◌,
  All, if◌then◌else◌, Bool-cases, err, nat_eq, text_eq,
}
use xira_net.Gateway.CircuitBreaker.{
  CircuitBreakerManager, CircuitBreakerEntry, ConfigState, half_open, allow_request, allow,
}
use xira_net.Gateway.CircuitBreaker.Recovery.{Event, allows}
use xira_net.Gateway.CircuitBreaker.Manager.{Call, call, calls, entry_call, or_fresh, call-get}
use xira_net.Gateway.CircuitBreaker.Probes.{half_open-refuses}

-- The call records no outcome on the service.
abbrev pub OnlyAsks : ℕ → Call → Type 0
OnlyAsks id k = (k.id == id) ≡ true → k.event ≡ allows

abbrev IsOut : CircuitBreakerEntry → Type 0
IsOut p = (p.state ≡ half_open) × (p.in_flight_probes ≡ 1)

abbrev IsOutIn : Option CircuitBreakerEntry → Type 0
IsOutIn o = (p : CircuitBreakerEntry) × (o ≡ some p) × IsOut p

allow-IsOut :
    (c : ConfigState) (now : ℕ) (p : CircuitBreakerEntry)
    → IsOut p
    → c.half_open_max_requests ≡ 1
    → IsOut (allow c now p).0
unfolding allow
allow-IsOut c now p out one = ground (arith, out, one)

entry_call-IsOutIn :
    (c : ConfigState) (event : Event) (now : ℕ) (o : Option CircuitBreakerEntry)
    → event ≡ allows
    → IsOutIn o
    → c.half_open_max_requests ≡ 1
    → IsOutIn (entry_call c event now o)
unfolding entry_call or_fresh
entry_call-IsOutIn c event now o asks (p, found, out) one =
    subst (λ v. IsOutIn (entry_call c v now o)) (sym asks)
      (subst (λ v. IsOutIn (entry_call c allows now v)) (sym found)
        ((allow c now p).0, refl, allow-IsOut c now p out one))

call-IsOutIn :
    (k : Call) (m : CircuitBreakerManager) (id : ℕ)
    → OnlyAsks id k
    → m.config.half_open_max_requests ≡ 1
    → IsOutIn (get id m.breakers)
    → IsOutIn (get id (call m k).breakers)
call-IsOutIn k m id asks one out =
    subst IsOutIn (sym (call-get m k id).1) (elim (Bool-cases (k.id == id)) [
      | inl same ↦
          subst
            (λ b. IsOutIn (
              if b
              then entry_call m.config k.event k.now (get id m.breakers)
              else get id m.breakers))
            (sym same)
            (entry_call-IsOutIn m.config k.event k.now (get id m.breakers) (asks same) out one)
      | inr other ↦
          subst
            (λ b. IsOutIn (
              if b
              then entry_call m.config k.event k.now (get id m.breakers)
              else get id m.breakers))
            (sym other) out
    ])

-- As long as no outcome is recorded on a service whose only probe is out, its breaker refuses.
pub calls-refused :
    (m : CircuitBreakerManager) (ks : List Call) (later id : ℕ) (p : CircuitBreakerEntry)
    → get id m.breakers ≡ some p
    → p.state ≡ half_open
    → p.in_flight_probes ≡ 1
    → m.config.half_open_max_requests ≡ 1
    → All (OnlyAsks id) ks
    → (allow_request (calls m ks) later id).1 ≡ err half_open
unfolding calls
calls-refused m [] later id p found st one most asks =
    half_open-refuses m later id p found st one most
calls-refused m (k ∷ ks) later id p found st one most asks =
    let r = call-IsOutIn k m id asks.0 most (p, found, (st, one)) in
    calls-refused (call m k) ks later id r.0 r.1 r.2.0 r.2.1
      (ap (λ c. c.half_open_max_requests) (call-get m k id).0 ∙ most) asks.1
