-- ===== src/Gateway/Pipeline/Caching.antt =====
-- Which requests the cache answers and learns from.
use xira_net.Common.{
  ℕ, ◌≡◌, refl, sym, subst, ◌≢◌, inl, inr, Bool, true, false, Option, none, some, arith, Text, In,
  if◌then◌else◌, ok, err, nat_eq, text_eq,
}
use xira_net.Registry.{ServiceEntry, all_upstreams}
use xira_net.Gateway.CircuitBreaker.{CircuitBreakerManager, Admission, allow_request}
use xira_net.Gateway.LoadBalancer.{select_upstream}
use xira_net.Gateway.Exchange.{
  Request, ProxyResult, Answers, Settings, Reply, cached, apply_actions, strategy_of, text_headers,
  cache_key, request_is_cacheable,
}
use xira_net.Gateway.Exchange.Private.{IsPrivate, header-private}
use xira_net.Gateway.ResponseCache.{LruCache, ResponseCache, Answer}
use xira_net.Gateway.ResponseCache.Histories.{Inv, get-Inv, put-Inv}
use xira_net.Gateway.Pipeline.{
  State, store, store_in, finish, asked, settled, proxy_to, proxy, answer_cached, from_cache, admit,
  gateway_handler,
}
use xira_net.Gateway.Pipeline.Outcomes.{gateway_handler-admit}
use xira_net.Gateway.Pipeline.Refusals.{is_refusal, gateway_handler-Ended}

same-branches : {A : Type 0} (b : Bool) (x : A) → (if b then x else x) ≡ x
same-branches true x = refl
same-branches false x = refl

module _ {C : Type 0} (lru : LruCache C) (settings : Settings) where
  store-private :
      (now : ℕ) (req : Request) (r : ProxyResult) (cache : ResponseCache C)
      → cache_key settings req ≡ none
      → store lru settings now req r cache ≡ cache
  unfolding store store_in
  store-private now req r cache e = rw e (same-branches _ cache)

  -- The cache is as it was, and did not answer.
  abbrev pub Apart : ResponseCache C → Reply × State C → Type 0
  Apart cache p = (p.1.cache ≡ cache) × ((hit : _) → p.0 ≢ cached hit)

  finish-Apart :
      (a : Answers) (req : Request) (s : State C) (p : ProxyResult × Option ℕ)
      → cache_key settings req ≡ none
      → Apart s.cache (finish lru settings a req s p)
  unfolding finish
  finish-Apart a req s (r, none) e =
      (store-private a.t_put req r s.cache e, λ hit h. ground (arith, h))
  finish-Apart a req s (r, some status) e = (refl, λ hit h. ground (arith, h))

  proxy-Apart :
      (a : Answers) (req : Request) (service : ServiceEntry) (s : State C)
      → cache_key settings req ≡ none
      → Apart s.cache (proxy lru settings a req service s)
  unfolding proxy proxy_to
  proxy-Apart a req service s e =
      let chosen =
        select_upstream s.balancer a.hash service.id (all_upstreams service)
          (strategy_of service) in
      let r = asked lru settings a req service chosen.1 in
      finish-Apart a req (settled lru settings a service r.status chosen s)
        (apply_actions r (a.on_response r.status)) e

  from_cache-Apart :
      (a : Answers) (req : Request) (service : ServiceEntry) (s : State C)
      → cache_key settings req ≡ none
      → Apart s.cache (from_cache lru settings a req service s (cache_key settings req))
  unfolding from_cache
  from_cache-Apart a req service s e = rw e (proxy-Apart a req service s e)

  admit-Apart :
      (a : Answers) (req : Request) (service : ServiceEntry) (s : State C)
      (p : CircuitBreakerManager × Admission)
      → cache_key settings req ≡ none
      → Apart s.cache (admit lru settings a req service s p)
  unfolding admit
  admit-Apart a req service s (m, err state) e = (refl, λ hit h. ground (arith, h))
  admit-Apart a req service s (m, ok _) e = from_cache-Apart a req service _ e

  refusal≢cached : (r : Reply) → is_refusal r ≡ true → (hit : _) → r ≢ cached hit
  refusal≢cached r h hit e = ground (arith, subst (λ x. is_refusal x ≡ true) e h)

  cache_key-private :
      (req : Request) → request_is_cacheable req ≡ false → cache_key settings req ≡ none
  unfolding cache_key
  cache_key-private req h = ground (arith, h)

  -- A request with a header Authorization, Cookie, Proxy-Authorization, X-Api-Key, Upgrade or
  -- Range, in any case of its letters, or with a Cache-Control that has no-store, private or
  -- no-cache in it, is never answered from the cache, and leaves it as it was.
  pub gateway_handler-private :
      (a : Answers) (req : Request) (s : State C) (header : Text × Option Text)
      → In header req.headers
      → IsPrivate header
      → Apart s.cache (gateway_handler lru settings a req s)
  gateway_handler-private a req s header has is_private =
      elim (gateway_handler-Ended lru settings a req s) [
        | inl r ↦ subst (Apart s.cache) (sym r.1) (refl, refusal≢cached r.0 r.2)
        | inr r ↦ subst (Apart s.cache) (sym (gateway_handler-admit lru settings a req s r.0 r.1)) (
            admit-Apart a req r.0 s (allow_request s.breakers a.t_allow r.0.id)
              (cache_key-private req (header-private header req has is_private)))
      ]

  store_in-Inv :
      (now : ℕ) (o : Option Text) (r : ProxyResult) (cache : ResponseCache C)
      → Inv lru cache
      → Inv lru (store_in lru settings now o r cache)
  unfolding store_in
  store_in-Inv now none r cache inv = inv
  store_in-Inv now (some key) r cache inv = put-Inv lru now key r.status r.headers r.body cache inv

  either-Inv :
      (b : Bool) (x y : ResponseCache C) → Inv lru x → Inv lru y → Inv lru (if b then x else y)
  either-Inv true x y h k = h
  either-Inv false x y h k = k

  store-Inv :
      (now : ℕ) (req : Request) (r : ProxyResult) (cache : ResponseCache C)
      → Inv lru cache
      → Inv lru (store lru settings now req r cache)
  unfolding store
  store-Inv now req r cache inv =
      either-Inv _ (store_in lru settings now (cache_key settings req) r cache) cache
        (store_in-Inv now (cache_key settings req) r cache inv) inv

  finish-Inv :
      (a : Answers) (req : Request) (s : State C) (p : ProxyResult × Option ℕ)
      → Inv lru s.cache
      → Inv lru (finish lru settings a req s p).1.cache
  unfolding finish
  finish-Inv a req s (r, none) inv = store-Inv a.t_put req r s.cache inv
  finish-Inv a req s (r, some status) inv = inv

  proxy-Inv :
      (a : Answers) (req : Request) (service : ServiceEntry) (s : State C)
      → Inv lru s.cache
      → Inv lru (proxy lru settings a req service s).1.cache
  unfolding proxy proxy_to
  proxy-Inv a req service s inv =
      let chosen =
        select_upstream s.balancer a.hash service.id (all_upstreams service)
          (strategy_of service) in
      let r = asked lru settings a req service chosen.1 in
      finish-Inv a req (settled lru settings a service r.status chosen s)
        (apply_actions r (a.on_response r.status)) inv

  answer_cached-Inv :
      (a : Answers) (req : Request) (service : ServiceEntry) (s : State C)
      (p : Answer × ResponseCache C)
      → Inv lru p.1
      → Inv lru (answer_cached lru settings a req service s p).1.cache
  unfolding answer_cached
  answer_cached-Inv a req service s (none, cache) inv =
      proxy-Inv a req service (record s { cache = cache }) inv
  answer_cached-Inv a req service s (some hit, cache) inv = inv

  from_cache-Inv :
      (a : Answers) (req : Request) (service : ServiceEntry) (s : State C) (o : Option Text)
      → Inv lru s.cache
      → Inv lru (from_cache lru settings a req service s o).1.cache
  unfolding from_cache
  from_cache-Inv a req service s none inv = proxy-Inv a req service s inv
  from_cache-Inv a req service s (some key) inv =
      answer_cached-Inv a req service s _
        (get-Inv lru a.t_get key (text_headers req.headers) s.cache inv)

  admit-Inv :
      (a : Answers) (req : Request) (service : ServiceEntry) (s : State C)
      (p : CircuitBreakerManager × Admission)
      → Inv lru s.cache
      → Inv lru (admit lru settings a req service s p).1.cache
  unfolding admit
  admit-Inv a req service s (m, err state) inv = inv
  admit-Inv a req service s (m, ok _) inv =
      from_cache-Inv a req service _ (cache_key settings req) inv

  -- A request, whatever it is and whatever is answered to it, keeps the cache free of what may not be shared.
  pub gateway_handler-Inv :
      (a : Answers) (req : Request) (s : State C)
      → Inv lru s.cache
      → Inv lru (gateway_handler lru settings a req s).1.cache
  gateway_handler-Inv a req s inv = elim (gateway_handler-Ended lru settings a req s) [
    | inl r ↦ subst (λ p. Inv lru p.1.cache) (sym r.1) inv
    | inr r ↦
        subst (λ p. Inv lru p.1.cache) (sym (gateway_handler-admit lru settings a req s r.0 r.1))
          (admit-Inv a req r.0 s (allow_request s.breakers a.t_allow r.0.id) inv)
  ]
