-- ===== src/Gateway/Pipeline/Refusals.antt =====
-- A request is refused and changes nothing, or it passes every test and comes to a service.
use xira_net.Common.{
  ℕ, ◌≡◌, refl, subst, ◌⊎◌, inl, inr, Bool, true, false, Option, none, some, List, [], ◌∷◌, arith,
  Text, if◌then◌else◌, some_inj, ok, err, nat_eq, text_eq,
}
use xira_net.Registry.{ServiceEntry, lookup, all_upstreams, increment_request_count}
use xira_net.Gateway.LoadBalancer.{select_upstream}
use xira_net.Gateway.CircuitBreaker.{CircuitBreakerManager, Admission, allow_request}
use xira_net.Gateway.Exchange.{
  Request, ProxyResult, PluginAction, goes_on, block, add_header, Answers, Settings, Reply, cached,
  proxied, blocked_response, circuit_open, denied_by_ip, not_whitelisted, invalid_body,
  not_via_gateway, no_service, apply_actions, strategy_of, waf_blocked, bot_blocked, bot_limited,
  BotVerdict, passes, blocked, rate_limited, bot_refusal, is_admin_path, peer_ip, ip_refusal,
  validation_refusal, plugin_refusal, first_of, service_refusal, early_refusal, cache_key,
}
use xira_net.Gateway.ResponseCache.{LruCache, ResponseCache, Answer}
use xira_net.Gateway.Pipeline.{
  State, finish, asked, settled, proxy_to, proxy, answer_cached, from_cache, admit, for_service,
  looked_up, checked, gateway_handler,
}
use xira_net.Gateway.Pipeline.Outcomes.{Reaches}

-- The replies that the tests give.
abbrev pub is_refusal : Reply → Bool
is_refusal circuit_open = false
is_refusal (cached hit) = false
is_refusal (proxied r) = false
is_refusal (blocked_response status) = false
is_refusal r = true

-- The replies that the cache or an upstream gives.
abbrev pub is_answer : Reply → Bool
is_answer (cached hit) = true
is_answer (proxied r) = true
is_answer (blocked_response status) = true
is_answer r = false

abbrev Refuses : Option Reply → Type 0
Refuses o = (r : Reply) → o ≡ some r → is_refusal r ≡ true

first_of-Refuses : (o p : Option Reply) → Refuses o → Refuses p → Refuses (first_of o p)
first_of-Refuses none p h k = k
first_of-Refuses (some r) p h k = h

Refuses-some : (r : Reply) → is_refusal r ≡ true → Refuses (some r)
Refuses-some r h q e = subst (λ x. is_refusal x ≡ true) (some_inj e) h

Refuses-none : Refuses none
Refuses-none r e = absurd (ground (arith, e))

Refuses-if : (b : Bool) (o p : Option Reply) → Refuses o → Refuses p → Refuses (if b then o else p)
Refuses-if true o p h k = h
Refuses-if false o p h k = k

ip_refusal-Refuses : (ip : Text) (service : ServiceEntry) → Refuses (ip_refusal ip service)
unfolding ip_refusal
ip_refusal-Refuses ip service =
    Refuses-if _ (some denied_by_ip) _ (Refuses-some denied_by_ip refl)
      (Refuses-if _ (some not_whitelisted) none (Refuses-some not_whitelisted refl) Refuses-none)

plugin_refusal-Refuses : (actions : List PluginAction) → Refuses (plugin_refusal actions)
unfolding plugin_refusal
plugin_refusal-Refuses [] = Refuses-none
plugin_refusal-Refuses (goes_on ∷ actions) = plugin_refusal-Refuses actions
plugin_refusal-Refuses (add_header k v ∷ actions) = plugin_refusal-Refuses actions
plugin_refusal-Refuses (block status ∷ actions) = Refuses-some _ refl

validation_refusal-Refuses :
    (schema : Option Text) (answer : Option ℕ) → Refuses (validation_refusal schema answer)
validation_refusal-Refuses none answer = Refuses-none
validation_refusal-Refuses (some s) none = Refuses-none
validation_refusal-Refuses (some s) (some status) = Refuses-some (invalid_body status) refl

bot_refusal-Refuses : (v : BotVerdict) → Refuses (bot_refusal v)
bot_refusal-Refuses passes = Refuses-none
bot_refusal-Refuses blocked = Refuses-some bot_blocked refl
bot_refusal-Refuses rate_limited = Refuses-some bot_limited refl

early_refusal-Refuses : (a : Answers) (req : Request) → Refuses (early_refusal a req)
unfolding early_refusal
early_refusal-Refuses a req =
    Refuses-if (is_admin_path req.path) (some not_via_gateway) _ (Refuses-some not_via_gateway refl)
      (Refuses-if a.waf_blocks (some waf_blocked) (bot_refusal a.bot)
        (Refuses-some waf_blocked refl) (bot_refusal-Refuses a.bot))

service_refusal-Refuses :
    (a : Answers) (req : Request) (service : ServiceEntry) → Refuses (service_refusal a req service)
unfolding service_refusal
service_refusal-Refuses a req service =
    first_of-Refuses (ip_refusal (peer_ip req) service) _ (ip_refusal-Refuses (peer_ip req) service)
      (first_of-Refuses (validation_refusal service.validation_schema (a.validation_error service))
        (plugin_refusal a.on_request)
        (validation_refusal-Refuses service.validation_schema (a.validation_error service))
        (plugin_refusal-Refuses a.on_request))

module _ {C : Type 0} (lru : LruCache C) (settings : Settings) where
  -- The test, or the lookup, that gives the reply.
  abbrev Refused : Answers → Request → State C → Reply → Type 0
  Refused a req s r =
      (early_refusal a req ≡ some r)
      ⊎ ((early_refusal a req ≡ none) × (lookup s.registry req.path ≡ none) × (r ≡ no_service))
      ⊎ ((service : ServiceEntry) × (early_refusal a req ≡ none)
          × (lookup s.registry req.path ≡ some service)
          × (service_refusal a req service ≡ some r))

  -- How a request ends when its breaker refuses it, and when it admits it.
  abbrev pub Heard :
      State C → ServiceEntry → CircuitBreakerManager × Admission → Reply × State C → Type 0
  Heard s service (m, err st) p = p ≡ (circuit_open, record s { breakers = m })
  Heard s service (m, ok _) p =
      (is_answer p.0 ≡ true) × (p.1.registry ≡ increment_request_count s.registry service.id)

  -- A test refused, and the state is as before; or the breaker of the service was asked.
  abbrev pub Ended : Answers → Request → State C → Reply × State C → Type 0
  Ended a req s p =
      ((r : Reply) × (p ≡ (r, s)) × (is_refusal r ≡ true) × Refused a req s r)
      ⊎ ((service : ServiceEntry) × Reaches lru settings a req s service
          × Heard s service (allow_request s.breakers a.t_allow service.id) p)

  -- The reply is the cache's or an upstream's, and the registry is as it was.
  abbrev Answered : State C → Reply × State C → Type 0
  Answered s p = (is_answer p.0 ≡ true) × (p.1.registry ≡ s.registry)

  finish-Answered :
      (a : Answers) (req : Request) (s : State C) (p : ProxyResult × Option ℕ)
      → Answered s (finish lru settings a req s p)
  unfolding finish
  finish-Answered a req s (r, none) = (refl, refl)
  finish-Answered a req s (r, some status) = (refl, refl)

  proxy-Answered :
      (a : Answers) (req : Request) (service : ServiceEntry) (s : State C)
      → Answered s (proxy lru settings a req service s)
  unfolding proxy proxy_to
  proxy-Answered a req service s =
      let chosen =
        select_upstream s.balancer a.hash service.id (all_upstreams service)
          (strategy_of service) in
      let r = asked lru settings a req service chosen.1 in
      finish-Answered a req (settled lru settings a service r.status chosen s)
        (apply_actions r (a.on_response r.status))

  answer_cached-Answered :
      (a : Answers) (req : Request) (service : ServiceEntry) (s : State C)
      (p : Answer × ResponseCache C)
      → Answered s (answer_cached lru settings a req service s p)
  unfolding answer_cached
  answer_cached-Answered a req service s (none, cache) =
      proxy-Answered a req service (record s { cache = cache })
  answer_cached-Answered a req service s (some hit, cache) = (refl, refl)

  from_cache-Answered :
      (a : Answers) (req : Request) (service : ServiceEntry) (s : State C) (o : Option Text)
      → Answered s (from_cache lru settings a req service s o)
  unfolding from_cache
  from_cache-Answered a req service s none = proxy-Answered a req service s
  from_cache-Answered a req service s (some key) = answer_cached-Answered a req service s _

  admit-Heard :
      (a : Answers) (req : Request) (service : ServiceEntry) (s : State C)
      (p : CircuitBreakerManager × Admission)
      → Heard s service p (admit lru settings a req service s p)
  unfolding admit
  admit-Heard a req service s (m, err state) = refl
  admit-Heard a req service s (m, ok _) =
      from_cache-Answered a req service _ (cache_key settings req)

  for_service-Ended :
      (a : Answers) (req : Request) (s : State C) (service : ServiceEntry) (o : Option Reply)
      → early_refusal a req ≡ none
      → lookup s.registry req.path ≡ some service
      → service_refusal a req service ≡ o
      → Ended a req s (for_service lru settings a req service s o)
  unfolding for_service
  for_service-Ended a req s service (some r) e l h =
      inl (r, refl, service_refusal-Refuses a req service r h, inr (inr (service, e, l, h)))
  for_service-Ended a req s service none e l h = inr (
    service,
    (e, l, h),
    admit-Heard a req service s (allow_request s.breakers a.t_allow service.id),
  )

  looked_up-Ended :
      (a : Answers) (req : Request) (s : State C) (o : Option ServiceEntry)
      → early_refusal a req ≡ none
      → lookup s.registry req.path ≡ o
      → Ended a req s (looked_up lru settings a req s o)
  unfolding looked_up
  looked_up-Ended a req s none e l = inl (no_service, refl, refl, inr (inl (e, l, refl)))
  looked_up-Ended a req s (some service) e l =
      for_service-Ended a req s service (service_refusal a req service) e l refl

  checked-Ended :
      (a : Answers) (req : Request) (s : State C) (o : Option Reply)
      → early_refusal a req ≡ o
      → Ended a req s (checked lru settings a req s o)
  unfolding checked
  checked-Ended a req s (some r) e = inl (r, refl, early_refusal-Refuses a req r e, inl e)
  checked-Ended a req s none e = looked_up-Ended a req s (lookup s.registry req.path) e refl

  pub gateway_handler-Ended :
      (a : Answers) (req : Request) (s : State C)
      → Ended a req s (gateway_handler lru settings a req s)
  unfolding gateway_handler
  gateway_handler-Ended a req s = checked-Ended a req s (early_refusal a req) refl
