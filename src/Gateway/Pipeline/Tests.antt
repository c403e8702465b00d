-- ===== src/Gateway/Pipeline/Tests.antt =====
-- The theorems about the handler at concrete requests.
use xira_net.Common.{
  ◌<◌, ◌≡◌, refl, inl, inr, true, false, none, some, List, [], ◌∷◌, arith, get, Text, codes,
  strip_prefix, starts_with, to_ascii_lowercase, u64_max, ok, err, nat_eq, text_eq,
}
use xira_net.Registry.{ServiceEntry, unknown, lookup, lookup_from, serves}
use xira_net.Gateway.CircuitBreaker.{
  CircuitBreakerEntry, opened, half_open, allow_request, allow, entry_or_insert, clamped_config,
}
use xira_net.Gateway.CircuitBreaker.Recovery.{allows, fails}
use xira_net.Gateway.CircuitBreaker.Manager.{Call, calls}
use xira_net.Gateway.LoadBalancer.{conn_count}
use xira_net.Gateway.Exchange.{
  Request, ProxyResult, Answers, Settings, passes, cached, is_admin_path, request_is_cacheable,
  cache_key, service_refusal, ip_refusal, plugin_refusal, early_refusal,
}
use xira_net.Gateway.ResponseCache
use xira_net.Gateway.ResponseCache.{
  ResponseCache, entry_of, make_key, is_expired, same_variant, extract_vary, extract_from,
  push_tokens, get_entry,
}
use xira_net.Gateway.ResponseCache.TwoEntries.{Entries, two_entries}
use xira_net.Gateway.Pipeline.{
  State, gateway_handler, checked, looked_up, for_service, admit, from_cache, answer_cached,
}
use xira_net.Gateway.Pipeline.Connections.{gateway_handler-conn_count}
use xira_net.Gateway.Pipeline.Outcomes.{Reaches, cached_saturates}
use xira_net.Gateway.Pipeline.Caching.{Apart, gateway_handler-private}
use xira_net.Gateway.Exchange.Private.{IsPrivate}

abbrev api : ServiceEntry
api = record {
  id = 1;
  name = codes "api";
  prefix = codes "/api";
  upstream = codes "http://a";
  health_endpoint = codes "/";
  status = unknown;
  registered_at = 0;
  last_health_check = none;
  request_count = 0;
  upstreams = [];
  load_balance = none;
  version = none;
  validation_schema = none;
  ip_whitelist = [];
  ip_blacklist = [];
  transform = none;
}

abbrev fetch : Request
fetch = record {
  method = codes "GET";
  path = codes "/api/x";
  query = [];
  headers = [];
  peer = some (codes "10.0.0.1");
}

abbrev with_cookie : Request
with_cookie = record fetch { headers = (codes "Cookie", some (codes "a=b")) ∷ [] }

abbrev reply_ok : ProxyResult
reply_ok = record { status = 200; headers = []; body = 7 ∷ []; is_error = false }

-- The clock stands at 100 seconds.
abbrev answers : Answers
answers = record {
  waf_blocks = false;
  bot = passes;
  validation_error = λ service. none;
  on_request = [];
  hash = 0;
  send = λ service url with_retries. some reply_ok;
  on_response = λ status. [];
  t_allow = 100000000000;
  t_get = 100000000000;
  t_outcome = 100000000000;
  t_put = 100000000000;
}

abbrev settings : Settings
settings = record { max_retries = 2; cache_enabled = true }

-- The breaker opened at 50 seconds, and the answer to the request was cached at 90.
abbrev broken : CircuitBreakerEntry
broken = record {
  state = opened;
  failure_count = 5;
  success_count_half_open = 0;
  in_flight_probes = 0;
  last_failure_time = some 50000000000;
  last_state_change = 50000000000;
}

abbrev start : State Entries
start = record {
  registry = record { services = (1, api) ∷ []; storage = none };
  breakers = record { breakers = (1, broken) ∷ []; config = clamped_config 5 30 1 };
  balancer = record { counters = []; connections = [] };
  cache = record {
    cache = (codes "GET:/api/x", entry_of 90000000000 200 [] (7 ∷ [])) ∷ [];
    ttl_secs = 60;
    enabled = true;
  };
}

Reaches-api : Reaches two_entries settings answers fetch start api
unfolding early_refusal is_admin_path starts_with strip_prefix lookup lookup_from serves
    service_refusal ip_refusal plugin_refusal
Reaches-api = (refl, refl, refl)

no_connections : (u : Text) → conn_count start.balancer u < u64_max
unfolding conn_count get
no_connections u = omega arith

admitted : (allow_request start.breakers answers.t_allow 1).1 ≡ ok tt
unfolding allow_request allow entry_or_insert get
admitted = refl

found_broken : get 1 start.breakers.breakers ≡ some broken
unfolding get
found_broken = refl

answered : (gateway_handler two_entries settings answers fetch start).0 ≡ cached (200, [], 7 ∷ [])
unfolding gateway_handler checked early_refusal is_admin_path starts_with strip_prefix looked_up
    lookup lookup_from serves service_refusal ip_refusal plugin_refusal for_service allow_request
    allow entry_or_insert get admit from_cache cache_key request_is_cacheable make_key
    ResponseCache.get get_entry is_expired same_variant extract_vary extract_from push_tokens
    answer_cached
answered = refl

cookie-IsPrivate : IsPrivate (codes "Cookie", some (codes "a=b"))
unfolding to_ascii_lowercase
cookie-IsPrivate = inl (inr (inl refl))

gateway_handler-conn_count_example :
    conn_count
      (gateway_handler two_entries settings answers fetch start).1.balancer
      (codes "http://a")
    ≡ conn_count start.balancer (codes "http://a")
gateway_handler-conn_count_example =
    gateway_handler-conn_count two_entries settings answers fetch start no_connections
      (codes "http://a")

-- The service is asked for again, and another one fails.
abbrev two_asks : List Call
two_asks =
    record { now = 200000000000; id = 1; event = allows }
    ∷ record { now = 300000000000; id = 2; event = fails }
    ∷ []

cached_saturates_example :
    (allow_request
      (calls (gateway_handler two_entries settings answers fetch start).1.breakers two_asks)
      900000000000
      1).1
    ≡ err half_open
cached_saturates_example =
    cached_saturates two_entries settings answers fetch start api broken 50000000000 900000000000
      (200, [], 7 ∷ []) two_asks Reaches-api found_broken refl refl (omega arith) refl answered
      ((λ h. refl), ((λ h. absurd (ground (arith, h))), tt))

gateway_handler-private_example :
    Apart two_entries settings start.cache
      (gateway_handler two_entries settings answers with_cookie start)
gateway_handler-private_example =
    gateway_handler-private two_entries settings answers with_cookie start
      (codes "Cookie", some (codes "a=b")) (inl refl) cookie-IsPrivate
