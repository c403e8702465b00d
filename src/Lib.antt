-- ===== src/Lib.antt =====
-- A model of xiraNET, an API gateway in Rust, with the theorems about it. Source paths are from the
-- repository's root.
--
-- A request to the gateway passes the middleware: the rate limiter counts it against its client's
-- address, the IP filter tests that address, and the JWT check decides whether its token is good or
-- its path needs none. The handler (src/gateway/mod.rs) then runs the firewall's and the bot check's
-- verdicts, finds in the service registry the service whose prefix is the longest that the path has,
-- runs the service's own tests, asks the circuit breaker of that service, answers from the response
-- cache where it may, and otherwise has the load balancer pick one of the service's upstreams, calls
-- it with retries, tells the breaker the outcome and keeps the response where it may. Requests that
-- the gateway makes on its own, to webhooks, cron targets and upstreams, pass a guard against
-- server-side request forgery, which resolves a host once and pins the address. The administration
-- has accounts with passwords, second factors and roles, sessions and API keys; releases and feature
-- flags are managed beside them.
--
-- Which file models which part:
--   Common: helpers; Tests, Lists, Assoc (maps as association lists), Bytes (texts as lists of bytes),
--     Results and Equality.
--   Net: std::net's addresses as numbers of 32 or 128 bits, and the tests of Ipv4Addr.
--   Gateway.Exchange: src/gateway/mod.rs, the request, its verdicts and replies, and the tests of its
--     headers (request_is_cacheable, response_is_cacheable); Private. Gateway.Pipeline: gateway_handler as one
--     function on the state of the registry, the breakers, the balancer and the cache; Connections,
--     Outcomes (what the breaker hears), Refusals and Caching.
--   Gateway.ResponseCache: src/gateway/cache.rs, over the interface LruCache of the crate lru;
--     Variants (headers that a response varies on), Histories, Sharing (what a hit is), Keys and TwoEntries (an instance of the interface).
--   Gateway.EdgeCache: src/gateway/edge_cache.rs; Bound and Validators. Gateway.RequestQueue:
--     src/gateway/request_queue.rs, the counters; Depth.
--   Gateway.CircuitBreaker: src/gateway/circuit_breaker.rs. allow_request, record_success and
--     record_failure act on a service's entry by allow, succeed and fail; Invariant, Recovery (the
--     history of one breaker), Probes, Manager (the breakers of all services) and Manager.Saturated (a
--     breaker whose only probe is out).
--   Gateway.LoadBalancer: src/gateway/load_balancer.rs. select_upstream, acquire_connection and
--     release_connection; Selection and Connections.
--   Gateway.RetryPolicy: src/gateway/retry.rs, the loop of execute; Attempts.
--   Registry: src/registry/mod.rs and models.rs. register, register_advanced, load_from_config,
--     unregister, lookup and the rest on a map of services and a log of the calls to storage; Lookup,
--     Prefixes and Reach.
--   Middleware.RateLimit: src/middleware/rate_limit.rs. CIDR ranges, client_ip, the window of call and
--     the evictor; Cidr, ClientIp and Window.
--   Middleware.IpFilter: src/middleware/ip_filter.rs; Decision.
--   Middleware.Jwt: src/middleware/jwt.rs. normalize_path, is_exempt_path and call; Segments, Normal,
--     Exempt and Call.
--   Middleware.RequireRole: src/middleware/require_role.rs; Access.
--   Middleware.ApiKeys: src/middleware/api_keys.rs; Disabled.
--   Alerting.UrlGuard: src/alerting/url_guard.rs. Address tests, pin_url and validate_url with the
--     functions made of them, and in PinCache the cache; Ranges and Mapped (which addresses pass),
--     Pinning, Validation and Caching.
--   Identity.Sessions: src/identity/sessions.rs. create, validate_with_request, invalidate,
--     invalidate_all, cleanup_expired and the handler of bus events; Eviction, Index and Upkeep (the
--     index by user), Validity (histories of calls) and Logout.
--   Identity.Roles and Identity.Accounts: src/identity/users.rs. The roles with their stored text
--     (Order), and register, authenticate, the lock on an email and the map of failures; Profile (the
--     other operations on a user), Login, Others (logins on other emails), Lockout, Capacity, Emails,
--     Reach (all histories) and Access.
--   Identity.Mfa: src/identity/mfa.rs. base32 and the codes of a time step; Base32 and Window.
--   Deployment.Releases: src/deployment/releases.rs; Rollback. Deployment.FeatureFlags:
--     src/deployment/feature_flags.rs; Rollout.
--   Automation.Cron: src/automation/cron.rs. next_after, add_job, remove_job and the locked steps of
--     tick; Schedule and Overlap.
--
-- Numbers are natural numbers; a sum that could leave its machine type is written with its wrap-around
-- or its saturation. Clocks are arguments, in nanoseconds for Instant and in seconds for times since
-- the epoch. A map is an association list, since the order of a DashMap's entries means nothing; each
-- operation runs as one step: under the lock of its entry, or, where the source takes several locks
-- (creating and removing sessions), without another operation between them. Random numbers, fresh ids and readings
-- of the clock are arguments. What comes from outside the repository is a parameter: parsing and
-- printing IP addresses, parsing URLs, resolving hosts, hashing tokens, passwords (Argon2), bodies and
-- contexts, HMAC-SHA1, decoding JSON web tokens, the LruCache with the laws that its documentation
-- gives, and what plugins and upstreams answer. The verdicts of the firewall and of the bot check are
-- arguments of the handler.
-- Texts are lists of bytes. All loops are structural recursion, over lists or over the attempts that
-- are left, so no fuel is used.
--
-- Not modelled: input and output (HTTP, TLS, SQLite, files, the command line, the dashboards, logs and
-- metrics), the plugin engines, the rules of the firewall, the transforms of headers and bodies, the
-- sealing of secrets, and the parts of the gateway named as left out in the manifest. rotate_key of the
-- API keys asks for a lock that it holds already, so it has no result to model.
pub mod Alerting
pub mod Automation
pub mod Common
pub mod Deployment
pub mod Gateway
pub mod Identity
pub mod Middleware
pub mod Net
pub mod Registry
