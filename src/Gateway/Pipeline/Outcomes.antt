-- ===== src/Gateway/Pipeline/Outcomes.antt =====
-- What a request tells the breaker of its service.
use xira_net.Common.{
  ℕ, ◌-◌, ◌≤◌, ◌≡◌, refl, sym, ap, ◌∙◌, subst, ◌⊎◌, inl, inr, Bool, true, false, ◌&&◌, Option, none,
  some, List, arith, get, Text, All, ltb, leb, if◌then◌else◌, ok, err, nat_eq, text_eq,
}
use xira_net.Registry.{ServiceEntry, lookup, all_upstreams}
use xira_net.Gateway.CircuitBreaker.{
  CircuitBreakerManager, CircuitBreakerEntry, opened, half_open, allow_request, record_failure,
  record_success, Admission, from_secs,
}
use xira_net.Gateway.CircuitBreaker.Probes.{probe-entry}
use xira_net.Gateway.CircuitBreaker.Manager.{Call, calls}
use xira_net.Gateway.CircuitBreaker.Manager.Saturated.{OnlyAsks, calls-refused}
use xira_net.Gateway.LoadBalancer.{select_upstream}
use xira_net.Gateway.Exchange.{
  Request, ProxyResult, Answers, Settings, Reply, cached, proxied, blocked_response, apply_actions,
  sent, retryable, downstream_url, downstream_path, service_refusal, early_refusal, cache_key,
  strategy_of,
}
use xira_net.Gateway.ResponseCache.{LruCache, ResponseCache, Answer}
use xira_net.Gateway.Pipeline.{
  State, record_outcome, finish, asked, settled, proxy_to, proxy, answer_cached, from_cache, admit,
  for_service, looked_up, checked, gateway_handler,
}
use xira_net.Gateway.Pipeline.Connections.{finish-state}

-- A reply that an upstream was asked for.
abbrev pub from_upstream : Reply → Bool
from_upstream (proxied r) = true
from_upstream (blocked_response status) = true
from_upstream r = false

not_upstream : false ≡ true → ⊥
not_upstream h = ground (arith, h)

module _ {C : Type 0} (lru : LruCache C) (settings : Settings) where
  -- What the upstream that the balancer picks answers, if any attempt gets an answer.
  abbrev pub upstream_answer : Answers → Request → State C → ServiceEntry → Option ProxyResult
  upstream_answer a req s service =
      a.send service
        (downstream_url
          (select_upstream s.balancer a.hash service.id (all_upstreams service)
            (strategy_of service)).1
          (downstream_path req.path service.prefix) req.query)
        (ltb 0 settings.max_retries && retryable req.method)

  -- The outcome that the breaker of a service hears: an answer below 500 is a success, and all else a failure.
  abbrev pub outcome : ℕ → ℕ → Option ProxyResult → CircuitBreakerManager → CircuitBreakerManager
  outcome now id none m = record_failure m now id
  outcome now id (some r) m =
      if leb 500 r.status then record_failure m now id else record_success m now id

  -- What a request does to the breakers after it was admitted.
  abbrev pub Told :
      Answers → Request → State C → ServiceEntry → CircuitBreakerManager → Reply × State C → Type 0
  Told a req s service m p =
      ((hit : _) × (p.0 ≡ cached hit) × (p.1.breakers ≡ m))
      ⊎ ((from_upstream p.0 ≡ true)
          × (p.1.breakers ≡ outcome a.t_outcome service.id (upstream_answer a req s service) m))

  record_outcome-sent :
      (now id : ℕ) (o : Option ProxyResult) (m : CircuitBreakerManager)
      → record_outcome now id (sent o).status m ≡ outcome now id o m
  unfolding record_outcome
  record_outcome-sent now id none m = refl
  record_outcome-sent now id (some r) m = refl

  finish-from_upstream :
      (a : Answers) (req : Request) (s : State C) (p : ProxyResult × Option ℕ)
      → from_upstream (finish lru settings a req s p).0 ≡ true
  unfolding finish
  finish-from_upstream a req s (r, none) = refl
  finish-from_upstream a req s (r, some status) = refl

  proxy-Told :
      (a : Answers) (req : Request) (service : ServiceEntry) (s : State C)
      → Told a req s service s.breakers (proxy lru settings a req service s)
  unfolding proxy proxy_to asked
  proxy-Told a req service s =
      let chosen =
        select_upstream s.balancer a.hash service.id (all_upstreams service)
          (strategy_of service) in
      let r = asked lru settings a req service chosen.1 in
      let after = settled lru settings a service r.status chosen s in
      let ended = apply_actions r (a.on_response r.status) in
      inr (
        finish-from_upstream a req after ended,
        (finish-state lru settings a req after ended).1
            ∙ record_outcome-sent a.t_outcome service.id (upstream_answer a req s service)
                s.breakers,
      )

  answer_cached-Told :
      (a : Answers) (req : Request) (service : ServiceEntry) (s : State C)
      (p : Answer × ResponseCache C)
      → Told a req s service s.breakers (answer_cached lru settings a req service s p)
  unfolding answer_cached
  answer_cached-Told a req service s (none, cache) =
      proxy-Told a req service (record s { cache = cache })
  answer_cached-Told a req service s (some hit, cache) = inl (hit, refl, refl)

  from_cache-Told :
      (a : Answers) (req : Request) (service : ServiceEntry) (s : State C) (o : Option Text)
      → Told a req s service s.breakers (from_cache lru settings a req service s o)
  unfolding from_cache
  from_cache-Told a req service s none = proxy-Told a req service s
  from_cache-Told a req service s (some key) = answer_cached-Told a req service s _

  admit-Told :
      (a : Answers) (req : Request) (service : ServiceEntry) (s : State C)
      (p : CircuitBreakerManager × Admission)
      → p.1 ≡ ok tt
      → Told a req s service p.0 (admit lru settings a req service s p)
  unfolding admit
  admit-Told a req service s (m, err state) h = absurd (ground (arith, h))
  admit-Told a req service s (m, ok _) h = from_cache-Told a req service _ (cache_key settings req)

  -- A request that no test refuses comes to the breaker of its service.
  abbrev pub Reaches : Answers → Request → State C → ServiceEntry → Type 0
  Reaches a req s service =
      (early_refusal a req ≡ none)
      × (lookup s.registry req.path ≡ some service)
      × (service_refusal a req service ≡ none)

  pub gateway_handler-admit :
      (a : Answers) (req : Request) (s : State C) (service : ServiceEntry)
      → Reaches a req s service
      → gateway_handler lru settings a req s
        ≡ admit lru settings a req service s (allow_request s.breakers a.t_allow service.id)
  unfolding gateway_handler checked looked_up for_service
  gateway_handler-admit a req s service r =
      ap (checked lru settings a req s) r.0
      ∙ ap (looked_up lru settings a req s) r.1
      ∙ ap (for_service lru settings a req service s) r.2

  pub gateway_handler-Told :
      (a : Answers) (req : Request) (s : State C) (service : ServiceEntry)
      → Reaches a req s service
      → (allow_request s.breakers a.t_allow service.id).1 ≡ ok tt
      → Told a req s service
          (allow_request s.breakers a.t_allow service.id).0
          (gateway_handler lru settings a req s)
  gateway_handler-Told a req s service r h =
      subst (Told a req s service (allow_request s.breakers a.t_allow service.id).0)
        (sym (gateway_handler-admit a req s service r))
        (admit-Told a req service s (allow_request s.breakers a.t_allow service.id) h)

  -- Where one probe is allowed, a request that is answered from the cache when the wait of an
  -- open breaker is over shuts the service off: whatever calls follow on any breakers, the
  -- breaker refuses the next request, as long as no outcome is recorded on it.
  pub cached_saturates :
      (a : Answers) (req : Request) (s : State C) (service : ServiceEntry) (e : CircuitBreakerEntry)
      (last later : ℕ) (hit : _) (ks : List Call)
      → Reaches a req s service
      → get service.id s.breakers.breakers ≡ some e
      → e.state ≡ opened
      → e.last_failure_time ≡ some last
      → from_secs s.breakers.config.reset_timeout_secs ≤ a.t_allow - last
      → s.breakers.config.half_open_max_requests ≡ 1
      → (gateway_handler lru settings a req s).0 ≡ cached hit
      → All (OnlyAsks service.id) ks
      → (allow_request
          (calls (gateway_handler lru settings a req s).1.breakers ks)
          later
          service.id).1
        ≡ err half_open
  unfolding allow_request
  cached_saturates a req s service e last later hit ks r found st lf waited one h asks =
      let p = probe-entry s.breakers a.t_allow service.id last e found st lf waited in
      elim (gateway_handler-Told a req s service r p.4) [
        | inl t ↦ rw t.2 (
            calls-refused (allow_request s.breakers a.t_allow service.id).0 ks later service.id p.0
              p.1 p.2 p.3 one asks)
        | inr t ↦ absurd (not_upstream (subst (λ x. from_upstream x ≡ true) h t.0))
      ]
