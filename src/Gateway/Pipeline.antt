-- ===== src/Gateway/Pipeline.antt =====
-- src/gateway/mod.rs: the handler through which every proxied request goes. The registry, the breakers,
-- the balancer and the cache are those of this library. What the firewall, the bot check, the body
-- validation, the plugins and the upstream answer is an argument, like the readings of the clock.
-- Metrics, logs and the headers that only report on the request are left out.
pub mod Refusals
pub mod Connections
pub mod Outcomes
pub mod Caching
mod Tests
use xira_net.Common.{
  ℕ, not, ◌&&◌, Option, none, some, get, Text, codes, ◌==◌, ltb, leb, if◌then◌else◌, ok, err,
  nat_eq, text_eq,
}
use xira_net.Registry.{
  ServiceEntry, ServiceRegistry, lookup, all_upstreams, increment_request_count,
}
use xira_net.Gateway.CircuitBreaker.{
  CircuitBreakerManager, allow_request, record_success, record_failure, Admission,
}
use xira_net.Gateway.LoadBalancer.{
  LoadBalancer, LoadBalanceStrategy, round_robin, from_str, select_upstream, acquire_connection,
  release_connection,
}
use xira_net.Gateway.Exchange.{
  Request, ProxyResult, BotVerdict, PluginAction, Answers, Settings, Reply,
  cache_control_disables_storage, disables, private_header, request_is_cacheable, private_response,
  response_is_cacheable, is_admin_path, peer_ip, ip_refusal, validation_refusal, status_or,
  plugin_refusal, first_of, service_refusal, early_refusal, cache_key, text_headers, strategy_of,
  downstream_path, downstream_url, retryable, exhausted, sent, apply_actions, passes, blocked,
  rate_limited, goes_on, block, add_header, not_via_gateway, waf_blocked, bot_blocked, bot_limited,
  no_service, denied_by_ip, not_whitelisted, invalid_body, blocked_by_plugin, circuit_open, cached,
  blocked_response, proxied,
}
use xira_net.Gateway.ResponseCache
use xira_net.Gateway.ResponseCache.{Headers, LruCache, ResponseCache, Answer, make_key}

pub record State (C : Type 0) : Type 0 where
  pub registry : ServiceRegistry
  pub breakers : CircuitBreakerManager
  pub balancer : LoadBalancer
  pub cache : ResponseCache C

unfoldable pub record_outcome : ℕ → ℕ → ℕ → CircuitBreakerManager → CircuitBreakerManager
record_outcome now id status m =
    if leb 500 status then record_failure m now id else record_success m now id

module _ {C : Type 0} (lru : LruCache C) (settings : Settings) where
  unfoldable pub store_in : ℕ → Option Text → ProxyResult → ResponseCache C → ResponseCache C
  store_in now none r cache = cache
  store_in now (some key) r cache = ResponseCache.put lru now key r.status r.headers r.body cache

  -- The writing to the cache.
  unfoldable pub store : ℕ → Request → ProxyResult → ResponseCache C → ResponseCache C
  unfolding store_in response_is_cacheable cache_key
  store now req r cache =
      if (req.method == codes "GET")
        && not r.is_error
        && leb 200 r.status
        && ltb r.status 300
        && response_is_cacheable r.headers
      then store_in now (cache_key settings req) r cache
      else cache

  unfoldable pub finish : Answers → Request → State C → ProxyResult × Option ℕ → Reply × State C
  unfolding store
  finish a req s (r, some status) = (blocked_response status, s)
  finish a req s (r, none) = (proxied r, record s { cache = store a.t_put req r s.cache })

  -- What the chosen upstream answers.
  unfoldable pub asked : Answers → Request → ServiceEntry → Text → ProxyResult
  unfolding downstream_url downstream_path
  asked a req service upstream = sent (
      a.send service (downstream_url upstream (downstream_path req.path service.prefix) req.query)
        (ltb 0 settings.max_retries && retryable req.method))

  -- The state once it has answered.
  abbrev pub settled : Answers → ServiceEntry → ℕ → LoadBalancer × Text → State C → State C
  settled a service status (balancer, upstream) s = record s {
    balancer = release_connection (acquire_connection balancer upstream) upstream;
    breakers = record_outcome a.t_outcome service.id status s.breakers;
  }

  unfoldable pub proxy_to :
      Answers → Request → ServiceEntry → State C → LoadBalancer × Text → Reply × State C
  unfolding finish record_outcome apply_actions asked
  proxy_to a req service s chosen =
      let r = asked a req service chosen.1 in
      finish a req (settled a service r.status chosen s) (apply_actions r (a.on_response r.status))

  -- From the choice of an upstream to the answer.
  unfoldable pub proxy : Answers → Request → ServiceEntry → State C → Reply × State C
  unfolding proxy_to
  proxy a req service s =
      proxy_to a req service s
        (select_upstream s.balancer a.hash service.id (all_upstreams service) (strategy_of service))

  unfoldable pub answer_cached :
      Answers → Request → ServiceEntry → State C → Answer × ResponseCache C → Reply × State C
  unfolding proxy
  answer_cached a req service s (none, cache) = proxy a req service (record s { cache = cache })
  answer_cached a req service s (some hit, cache) = (cached hit, record s { cache = cache })

  unfoldable pub from_cache :
      Answers → Request → ServiceEntry → State C → Option Text → Reply × State C
  unfolding answer_cached
  from_cache a req service s none = proxy a req service s
  from_cache a req service s (some key) =
      answer_cached a req service s
        (ResponseCache.get lru a.t_get key (text_headers req.headers) s.cache)

  unfoldable pub admit :
      Answers
      → Request
      → ServiceEntry
      → State C
      → CircuitBreakerManager × Admission
      → Reply × State C
  unfolding from_cache cache_key
  admit a req service s (breakers, err state) = (circuit_open, record s { breakers = breakers })
  admit a req service s (breakers, ok _) =
      from_cache a req service
        (record s { breakers = breakers; registry = increment_request_count s.registry service.id })
        (cache_key settings req)

  unfoldable pub for_service :
      Answers → Request → ServiceEntry → State C → Option Reply → Reply × State C
  unfolding admit
  for_service a req service s (some refusal) = (refusal, s)
  for_service a req service s none =
      admit a req service s (allow_request s.breakers a.t_allow service.id)

  unfoldable pub looked_up : Answers → Request → State C → Option ServiceEntry → Reply × State C
  unfolding for_service service_refusal
  looked_up a req s none = (no_service, s)
  looked_up a req s (some service) = for_service a req service s (service_refusal a req service)

  unfoldable pub checked : Answers → Request → State C → Option Reply → Reply × State C
  unfolding looked_up
  checked a req s (some refusal) = (refusal, s)
  checked a req s none = looked_up a req s (lookup s.registry req.path)

  unfoldable pub gateway_handler : Answers → Request → State C → Reply × State C
  unfolding checked early_refusal
  gateway_handler a req s = checked a req s (early_refusal a req)
