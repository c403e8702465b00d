-- ===== src/Gateway/Exchange.antt =====
-- src/gateway/mod.rs: a request, what the components answer to it, and the tests and texts that the
-- handler derives from them.
pub mod Private
use xira_net.Common.{
  ℕ, Bool, true, false, not, ◌&&◌, ◌||◌, Option, none, some, List, [], ◌∷◌, ◌++◌, Text, codes,
  strip_prefix, starts_with, trim, to_ascii_lowercase, contains, ◌==◌, any, is_empty, ltb, leb,
  if◌then◌else◌, nat_eq, text_eq,
}
use xira_net.Registry.{ServiceEntry}
use xira_net.Gateway.LoadBalancer.{LoadBalanceStrategy, round_robin, from_str}
use xira_net.Gateway.ResponseCache.{Headers, make_key}

-- A request; a header's value is its text, if it is one.
pub record Request : Type 0 where
  pub method : Text
  pub path : Text
  pub query : Text
  pub headers : List (Text × Option Text)
  pub peer : Option Text

pub record ProxyResult : Type 0 where
  pub status : ℕ
  pub headers : Headers
  pub body : List ℕ
  pub is_error : Bool

pub data BotVerdict : Type 0 where
  passes blocked rate_limited : BotVerdict

pub data PluginAction : Type 0 where
  goes_on : PluginAction
  block : ℕ → PluginAction
  add_header : Text → Text → PluginAction

-- What the other components answer to one request.
pub record Answers : Type 0 where
  pub waf_blocks : Bool
  pub bot : BotVerdict
  pub validation_error : ServiceEntry → Option ℕ
  pub on_request : List PluginAction
  pub hash : ℕ
  pub send : (service : ServiceEntry) (url : Text) (with_retries : Bool) → Option ProxyResult
  pub on_response : ℕ → List PluginAction
  pub t_allow : ℕ
  pub t_get : ℕ
  pub t_outcome : ℕ
  pub t_put : ℕ

pub record Settings : Type 0 where
  pub max_retries : ℕ
  pub cache_enabled : Bool

-- How a request ends.
pub data Reply : Type 0 where
  not_via_gateway waf_blocked bot_blocked bot_limited no_service denied_by_ip not_whitelisted :
      Reply
  invalid_body blocked_by_plugin : ℕ → Reply
  circuit_open : Reply
  cached : ℕ × Headers × List ℕ → Reply
  blocked_response : ℕ → Reply
  proxied : ProxyResult → Reply

unfoldable pub cache_control_disables_storage : Text → Bool
cache_control_disables_storage value =
    let normalized = to_ascii_lowercase value in
    contains normalized (codes "no-store")
    || contains normalized (codes "private")
    || contains normalized (codes "no-cache")

abbrev pub disables : Option Text → Bool
disables none = false
disables (some value) = cache_control_disables_storage value

-- A header that keeps a request from the cache.
unfoldable pub private_header : Text × Option Text → Bool
unfolding cache_control_disables_storage
private_header (name, value) =
    let header_name = to_ascii_lowercase name in
    any (λ n. header_name == n)
      (codes "authorization"
        ∷ codes "cookie"
        ∷ codes "proxy-authorization"
        ∷ codes "x-api-key"
        ∷ codes "upgrade"
        ∷ codes "range"
        ∷ [])
    || (header_name == codes "cache-control") && disables value

unfoldable pub request_is_cacheable : Request → Bool
unfolding private_header
request_is_cacheable req = not (any private_header req.headers)

unfoldable pub private_response : Text × Text → Bool
unfolding cache_control_disables_storage
private_response (name, value) =
    let header_name = to_ascii_lowercase name in
    header_name == codes "set-cookie"
    || (header_name == codes "cache-control") && cache_control_disables_storage value
    || (header_name == codes "vary") && (trim value == codes "*")

unfoldable pub response_is_cacheable : Headers → Bool
unfolding private_response
response_is_cacheable headers = not (any private_response headers)

-- The paths that the gateway leaves to the routes of the admin API.
unfoldable pub is_admin_path : Text → Bool
is_admin_path path =
    starts_with path (codes "/xira")
    || (path == codes "/metrics")
    || (path == codes "/ws")
    || (path == codes "/dashboard")

abbrev pub peer_ip : Request → Text
peer_ip req = elim req.peer [ none ↦ [] | some ip ↦ ip ]

-- The filter of the service's own lists.
unfoldable pub ip_refusal : Text → ServiceEntry → Option Reply
ip_refusal ip service =
    if any (λ b. b == ip) service.ip_blacklist
    then some denied_by_ip
    else if not (is_empty service.ip_whitelist) && not (any (λ w. w == ip) service.ip_whitelist)
    then some not_whitelisted
    else none

-- The validation, of a service with a schema.
abbrev pub validation_refusal : Option Text → Option ℕ → Option Reply
validation_refusal none answer = none
validation_refusal (some schema) none = none
validation_refusal (some schema) (some status) = some (invalid_body status)

-- `StatusCode::from_u16(status).unwrap_or(other)`.
abbrev pub status_or : ℕ → ℕ → ℕ
status_or other status = if leb 100 status && ltb status 1000 then status else other

unfoldable pub plugin_refusal : List PluginAction → Option Reply
plugin_refusal [] = none
plugin_refusal (block status ∷ actions) = some (blocked_by_plugin (status_or 403 status))
plugin_refusal (_ ∷ actions) = plugin_refusal actions

abbrev pub first_of : Option Reply → Option Reply → Option Reply
first_of none b = b
first_of (some r) b = some r

-- The tests on a request for a service, before the breaker is asked.
unfoldable pub service_refusal : Answers → Request → ServiceEntry → Option Reply
unfolding ip_refusal plugin_refusal
service_refusal a req service = first_of (ip_refusal (peer_ip req) service) (
    first_of (validation_refusal service.validation_schema (a.validation_error service))
      (plugin_refusal a.on_request))

abbrev pub bot_refusal : BotVerdict → Option Reply
bot_refusal passes = none
bot_refusal blocked = some bot_blocked
bot_refusal rate_limited = some bot_limited

-- The tests before the service is looked up.
unfoldable pub early_refusal : Answers → Request → Option Reply
unfolding is_admin_path
early_refusal a req =
    if is_admin_path req.path
    then some not_via_gateway
    else if a.waf_blocks
    then some waf_blocked
    else bot_refusal a.bot

unfoldable pub cache_key : Settings → Request → Option Text
unfolding request_is_cacheable
cache_key settings req =
    if (req.method == codes "GET") && settings.cache_enabled && request_is_cacheable req
    then some (make_key (codes "GET") req.path req.query)
    else none

-- The headers that are text.
abbrev pub text_headers : List (Text × Option Text) → Headers
text_headers [] = []
text_headers ((k, none) ∷ hs) = text_headers hs
text_headers ((k, some v) ∷ hs) = (k, v) ∷ text_headers hs

abbrev pub strategy_of : ServiceEntry → LoadBalanceStrategy
strategy_of service = elim service.load_balance [ none ↦ round_robin | some s ↦ from_str s ]

unfoldable pub downstream_path : Text → Text → Text
downstream_path path prefix = elim (strip_prefix prefix path) [
  | none ↦ codes "/"
  | some rest ↦ if is_empty rest then codes "/" else rest
]

unfoldable pub downstream_url : Text → Text → Text → Text
downstream_url upstream path query =
    if is_empty query then upstream ++ path else upstream ++ path ++ b'?' ∷ query

-- `method_is_retryable`, of a method that is one of those matched, or else GET.
abbrev pub retryable : Text → Bool
retryable method =
    not (any (λ m. method == m) (codes "POST" ∷ codes "PUT" ∷ codes "DELETE" ∷ codes "PATCH" ∷ []))

-- The answer where every attempt failed; its body only reports the error, and is left empty.
abbrev pub exhausted : ProxyResult
exhausted = record {
  status = 502;
  headers = (codes "content-type", codes "application/json") ∷ [];
  body = [];
  is_error = true;
}

abbrev pub sent : Option ProxyResult → ProxyResult
sent none = exhausted
sent (some r) = r

-- The actions on the response: headers are added until one blocks.
unfoldable pub apply_actions : ProxyResult → List PluginAction → ProxyResult × Option ℕ
apply_actions r [] = (r, none)
apply_actions r (goes_on ∷ actions) = apply_actions r actions
apply_actions r (block status ∷ actions) = (r, some (status_or 500 status))
apply_actions r (add_header k v ∷ actions) =
    apply_actions (record r { headers = r.headers ++ (k, v) ∷ [] }) actions
