-- ===== src/Gateway/Pipeline/Connections.antt =====
-- What a request leaves behind in the balancer.
use xira_net.Common.{
  ℕ, ◌<◌, ◌≡◌, refl, sym, ap, ◌∙◌, subst, Option, none, some, List, [], ◌∷◌, arith, Text, ==_refl,
  list_eqb_iff, u64_max, ok, err, nat_eq, text_eq,
}
use xira_net.Registry.{ServiceEntry, lookup, all_upstreams}
use xira_net.Gateway.CircuitBreaker.{CircuitBreakerManager, allow_request, Admission}
use xira_net.Gateway.LoadBalancer.{
  LoadBalancer, LoadBalanceStrategy, round_robin, random, least_connections, conn_count,
  select_upstream, select_by, acquire_connection, release_connection,
}
use xira_net.Gateway.LoadBalancer.Connections.{conn_count-acquire, conn_count-release}
use xira_net.Gateway.Exchange.{
  Request, ProxyResult, Answers, Settings, Reply, apply_actions, service_refusal, early_refusal,
  cache_key, strategy_of,
}
use xira_net.Gateway.ResponseCache.{LruCache, ResponseCache, Answer}
use xira_net.Gateway.Pipeline.{
  State, finish, asked, settled, proxy_to, proxy, answer_cached, from_cache, admit, for_service,
  looked_up, checked, gateway_handler,
}

-- Choosing an upstream opens no connection.
select-conn_count :
    (lb : LoadBalancer) (hash id : ℕ) (us : List Text) (st : LoadBalanceStrategy) (u : Text)
    → conn_count (select_upstream lb hash id us st).0 u ≡ conn_count lb u
unfolding select_upstream select_by conn_count
select-conn_count lb hash id [] st u = refl
select-conn_count lb hash id (x ∷ []) st u = refl
select-conn_count lb hash id (x ∷ y ∷ us) round_robin u = refl
select-conn_count lb hash id (x ∷ y ∷ us) random u = refl
select-conn_count lb hash id (x ∷ y ∷ us) least_connections u = refl

acquire-release :
    (lb : LoadBalancer) (v u : Text)
    → conn_count lb v < u64_max
    → conn_count (release_connection (acquire_connection lb v) v) u ≡ conn_count lb u
acquire-release lb v u h = ground (
  arith,
  list_eqb_iff v u,
  ==_refl v,
  conn_count-release (acquire_connection lb v) v u,
  conn_count-acquire lb v v,
  conn_count-acquire lb v u,
)

module _ {C : Type 0} (lru : LruCache C) (settings : Settings) where
  -- A state with these connection counts.
  abbrev Counts : (Text → ℕ) → State C → Type 0
  Counts n s = (u : Text) → conn_count s.balancer u ≡ n u

  pub finish-state :
      (a : Answers) (req : Request) (s : State C) (p : ProxyResult × Option ℕ)
      → ((finish lru settings a req s p).1.balancer ≡ s.balancer)
        × ((finish lru settings a req s p).1.breakers ≡ s.breakers)
  unfolding finish
  finish-state a req s (r, none) = (refl, refl)
  finish-state a req s (r, some status) = (refl, refl)

  proxy-Counts :
      (n : Text → ℕ) (a : Answers) (req : Request) (service : ServiceEntry) (s : State C)
      → ((u : Text) → n u < u64_max)
      → Counts n s
      → Counts n (proxy lru settings a req service s).1
  unfolding proxy proxy_to
  proxy-Counts n a req service s small h u =
      let chosen =
        select_upstream s.balancer a.hash service.id (all_upstreams service)
          (strategy_of service) in
      let same =
        select-conn_count s.balancer a.hash service.id (all_upstreams service)
          (strategy_of service) in
      let r = asked lru settings a req service chosen.1 in
      ap (λ b. conn_count b u)
        (finish-state a req (settled lru settings a service r.status chosen s)
          (apply_actions r (a.on_response r.status))).0
      ∙ acquire-release chosen.0 chosen.1 u
          (subst (λ k. k < u64_max) (sym (same chosen.1 ∙ h chosen.1)) (small chosen.1))
      ∙ same u
      ∙ h u

  answer_cached-Counts :
      (n : Text → ℕ) (a : Answers) (req : Request) (service : ServiceEntry) (s : State C)
      (p : Answer × ResponseCache C)
      → ((u : Text) → n u < u64_max)
      → Counts n s
      → Counts n (answer_cached lru settings a req service s p).1
  unfolding answer_cached
  answer_cached-Counts n a req service s (none, cache) small h =
      proxy-Counts n a req service (record s { cache = cache }) small h
  answer_cached-Counts n a req service s (some hit, cache) small h = h

  from_cache-Counts :
      (n : Text → ℕ) (a : Answers) (req : Request) (service : ServiceEntry) (s : State C)
      (o : Option Text)
      → ((u : Text) → n u < u64_max)
      → Counts n s
      → Counts n (from_cache lru settings a req service s o).1
  unfolding from_cache
  from_cache-Counts n a req service s none small h = proxy-Counts n a req service s small h
  from_cache-Counts n a req service s (some key) small h =
      answer_cached-Counts n a req service s _ small h

  admit-Counts :
      (n : Text → ℕ) (a : Answers) (req : Request) (service : ServiceEntry) (s : State C)
      (p : CircuitBreakerManager × Admission)
      → ((u : Text) → n u < u64_max)
      → Counts n s
      → Counts n (admit lru settings a req service s p).1
  unfolding admit
  admit-Counts n a req service s (m, err state) small h = h
  admit-Counts n a req service s (m, ok _) small h =
      from_cache-Counts n a req service _ (cache_key settings req) small h

  for_service-Counts :
      (n : Text → ℕ) (a : Answers) (req : Request) (service : ServiceEntry) (s : State C)
      (o : Option Reply)
      → ((u : Text) → n u < u64_max)
      → Counts n s
      → Counts n (for_service lru settings a req service s o).1
  unfolding for_service
  for_service-Counts n a req service s (some r) small h = h
  for_service-Counts n a req service s none small h =
      admit-Counts n a req service s (allow_request s.breakers a.t_allow service.id) small h

  looked_up-Counts :
      (n : Text → ℕ) (a : Answers) (req : Request) (s : State C) (o : Option ServiceEntry)
      → ((u : Text) → n u < u64_max)
      → Counts n s
      → Counts n (looked_up lru settings a req s o).1
  unfolding looked_up
  looked_up-Counts n a req s none small h = h
  looked_up-Counts n a req s (some service) small h =
      for_service-Counts n a req service s (service_refusal a req service) small h

  checked-Counts :
      (n : Text → ℕ) (a : Answers) (req : Request) (s : State C) (o : Option Reply)
      → ((u : Text) → n u < u64_max)
      → Counts n s
      → Counts n (checked lru settings a req s o).1
  unfolding checked
  checked-Counts n a req s (some r) small h = h
  checked-Counts n a req s none small h =
      looked_up-Counts n a req s (lookup s.registry req.path) small h

  -- However a request ends, every upstream has the connections that it had, if no counter is at
  -- its greatest value.
  pub gateway_handler-conn_count :
      (a : Answers) (req : Request) (s : State C)
      → ((u : Text) → conn_count s.balancer u < u64_max)
      → (u : Text)
      → conn_count (gateway_handler lru settings a req s).1.balancer u ≡ conn_count s.balancer u
  unfolding gateway_handler
  gateway_handler-conn_count a req s small =
      checked-Counts (conn_count s.balancer) a req s (early_refusal a req) small (λ u. refl)
