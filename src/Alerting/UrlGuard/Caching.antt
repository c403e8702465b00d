-- ===== src/Alerting/UrlGuard/Caching.antt =====
-- What the cache of pinned addresses answers.
use xira_net.Common.{
  ℕ, ◌≤◌, ◌<◌, ◌≡◌, refl, ◌∙◌, subst, ◌⊎◌, inl, inr, true, false, Option, none, some, List, [], ◌∷◌,
  arith, get, insert, get-insert, Text, to_ascii_lowercase, ◌==◌, ==_iff, ==_refl, Result, add64,
  lt→ltb, Bool-cases, Option-cases, ok, err, text_eq,
}
use xira_net.Net.{IpAddr}
use xira_net.Alerting.UrlGuard.{
  UrlGuardError, upstream_only, invalid, forbidden, is_ip_allowed, is_allowed_upstream_port,
  is_http, host_blocked, Url, PinnedUrl, port_allowed, pin_upstream_url,
}
use xira_net.Alerting.UrlGuard.Pinning.{IsPinned, pin_url-IsPinned, or_error-ok, guard-ok}
use xira_net.Alerting.UrlGuard.PinCache.{
  PinCache, fresh, store, pick_or_store, pin_upstream, Call, calls,
}

-- What holds of an address pinned for an upstream, whenever it was resolved.
pub IsGuarded : Text → PinnedUrl → Type 0
IsGuarded url p =
    (p.url ≡ url)
    × (is_ip_allowed p.ip upstream_only ≡ true)
    × (host_blocked upstream_only (to_ascii_lowercase p.host) ≡ false)
    × (is_allowed_upstream_port p.port ≡ true)

-- All entries are guarded, under their own URLs.
unfoldable pub AllGuarded : PinCache → Type 0
AllGuarded c =
    (url : Text) (p : PinnedUrl) (exp : ℕ) → get url c.inner ≡ some (p, exp) → IsGuarded url p

-- The port of a parsed URL with scheme `http` or `https` is its own or the scheme's.
unfoldable pub HasSchemePort : (Text → Option Url) → Type 0
HasSchemePort parse_url =
    (raw : Text) (u : Url) (q : ℕ)
    → parse_url raw ≡ some u
    → is_http u.scheme ≡ true
    → u.port_or_known_default ≡ some q
    → (u.port ≡ some q) ⊎ (u.port ≡ none) × ((q ≡ 80) ⊎ (q ≡ 443))

port_allowed-port :
    (o : Option ℕ) (q : ℕ)
    → (o ≡ some q) ⊎ (o ≡ none) × ((q ≡ 80) ⊎ (q ≡ 443))
    → port_allowed o ≡ true
    → is_allowed_upstream_port q ≡ true
unfolding port_allowed is_allowed_upstream_port
port_allowed-port o q (inl e) h = ground arith
port_allowed-port o q (inr e) h = ground arith

-- What `get` finds after an insert.
insert-Guarded :
    (c : PinCache) (url : Text) (p : PinnedUrl) (exp : ℕ)
    → AllGuarded c
    → IsGuarded url p
    → AllGuarded (record c { inner = insert url (p, exp) c.inner })
unfolding AllGuarded
insert-Guarded c url p exp g h url' q t e =
    let at = get-insert url url' (p, exp) c.inner in
    elim (Bool-cases (url == url')) [
      | inl same ↦
          let eq : url ≡ url' = (==_iff url url').0 same in
          let found : p ≡ q = ground arith in
          subst (λ (u : Text). IsGuarded u q) eq
            (subst (λ (x : PinnedUrl). IsGuarded url x) found h)
      | inr other ↦ g url' q t (ground arith)
    ]

fresh-Guarded :
    (c : PinCache) (url : Text) (now : ℕ) (p : PinnedUrl)
    → AllGuarded c
    → fresh now (get url c.inner) ≡ some p
    → IsGuarded url p
unfolding AllGuarded fresh
fresh-Guarded c url now p g h = elim (Option-cases (get url c.inner)) [
  | inl e ↦ ground arith
  | inr ((q, t), e) ↦
      let same : q ≡ p = ground arith in
      subst (λ (x : PinnedUrl). IsGuarded url x) same (g url q t e)
]

pick-Guarded :
    (c : PinCache) (url : Text) (later : ℕ) (r : Result PinnedUrl UrlGuardError)
    (o : Option PinnedUrl)
    → AllGuarded c
    → ((p : PinnedUrl) → r ≡ ok p → IsGuarded url p)
    → ((p : PinnedUrl) → o ≡ some p → IsGuarded url p)
    → ((p : PinnedUrl) → (pick_or_store url later c r o).0 ≡ ok p → IsGuarded url p)
      × AllGuarded (pick_or_store url later c r o).1
unfolding pick_or_store store
pick-Guarded c url later r (some p) g hr ho = (λ q e. ho q (ground arith), g)
pick-Guarded c url later (ok p) none g hr ho =
    (hr, insert-Guarded c url p (add64 later c.ttl_secs) g (hr p refl))
pick-Guarded c url later (err e) none g hr ho = (hr, g)

module _ (parse_url : Text → Option Url) (parse_ip : Text → Option IpAddr)
    (k : HasSchemePort parse_url) where
  pub pin_upstream_url-IsGuarded :
      (lookup_host : Text → ℕ → Option (List IpAddr)) (raw : Text) (p : PinnedUrl)
      → pin_upstream_url parse_url parse_ip lookup_host raw ≡ ok p
      → IsGuarded raw p
  unfolding pin_upstream_url IsGuarded IsPinned HasSchemePort
  pin_upstream_url-IsGuarded lookup_host raw p h =
      let (u, e, h1) = or_error-ok (parse_url raw) invalid _ p h in
      let (e2, h2) = guard-ok (port_allowed u.port) forbidden _ p h1 in
      let (r, a, nb, f, (w, ew, es, eh, ep)) =
        pin_url-IsPinned parse_url parse_ip lookup_host raw upstream_only p h2 in
      let same : u ≡ w = ground arith in
      (r, a, nb, port_allowed-port w.port p.port (k raw w p.port ew es ep) (cc))

  -- When a parsed URL with scheme http or https has its own port or, having none, 80 or 443,
  -- and all entries are guarded, a call answers with a guarded address for its URL or with an
  -- error, and keeps all entries guarded.
  pub pin_upstream-IsGuarded :
      (lookup_host : Text → ℕ → Option (List IpAddr)) (now later : ℕ) (url : Text) (c : PinCache)
      → AllGuarded c
      → let r = pin_upstream parse_url parse_ip lookup_host now later url c in
        ((p : PinnedUrl) → r.0 ≡ ok p → IsGuarded url p) × AllGuarded r.1
  unfolding pin_upstream
  pin_upstream-IsGuarded lookup_host now later url c g =
      pick-Guarded c url later _ _ g (pin_upstream_url-IsGuarded lookup_host url)
        (λ p. fresh-Guarded c url now p g)

  -- When a parsed URL with scheme http or https has its own port or, having none, 80 or 443,
  -- then from a cache with guarded entries any calls of pin_upstream lead to guarded entries,
  -- however hosts resolve and the clock reads: each is kept under its own URL, its address is
  -- allowed for upstreams, and its host and port are not blocked.
  pub calls-AllGuarded :
      (xs : List Call) (c : PinCache) → AllGuarded c → AllGuarded (calls parse_url parse_ip xs c)
  calls-AllGuarded [] c g = g
  calls-AllGuarded (x ∷ xs) c g =
      calls-AllGuarded xs _ (pin_upstream-IsGuarded x.lookup_host x.now x.later x.url c g).1

pick_or_store-stale :
    (c : PinCache) (url : Text) (later : ℕ) (r : Result PinnedUrl UrlGuardError) (now : ℕ)
    (p : PinnedUrl) (exp : ℕ)
    → exp ≤ now
    → (pick_or_store url later c r (fresh now (some (p, exp)))).0 ≡ r
unfolding pick_or_store store fresh
pick_or_store-stale c url later (ok q) now p exp l = ground arith
pick_or_store-stale c url later (err e) now p exp l = ground arith

again-lem :
    (c : PinCache) (url : Text) (p : PinnedUrl) (later now exp : ℕ)
    (r : Result PinnedUrl UrlGuardError)
    → let c' = record c { inner = insert url (p, exp) c.inner } in
      let again = pick_or_store url later c' r (fresh now (get url c'.inner)) in
      (now < exp → again ≡ (ok p, c')) × (exp ≤ now → again.0 ≡ r)
unfolding pick_or_store store fresh
again-lem c url p later now exp r =
    let at : get url (insert url (p, exp) c.inner) ≡ some (p, exp) =
      get-insert url url (p, exp) c.inner ∙ rw (==_refl url) refl in
    (
      (λ l. rw (at, lt→ltb now exp l) refl),
      (λ l. rw at (pick_or_store-stale _ url later r now p exp l)),
    )

module _ (parse_url : Text → Option Url) (parse_ip : Text → Option IpAddr) where
  -- An address pinned at a call that found no fresh entry is given again, whatever the host
  -- resolves to by then and with the cache unchanged, until the expiry of the entry; from then
  -- on the host is resolved anew.
  pub pin_upstream-again :
      (lookup_host lookup_host' : Text → ℕ → Option (List IpAddr)) (now later now' later' : ℕ)
      (url : Text) (c : PinCache) (p : PinnedUrl)
      → fresh now (get url c.inner) ≡ none
      → pin_upstream_url parse_url parse_ip lookup_host url ≡ ok p
      → let c' = (pin_upstream parse_url parse_ip lookup_host now later url c).1 in
        let again = pin_upstream parse_url parse_ip lookup_host' now' later' url c' in
        (now' < add64 later c.ttl_secs → again ≡ (ok p, c'))
        × (add64 later c.ttl_secs ≤ now'
            → again.0 ≡ pin_upstream_url parse_url parse_ip lookup_host' url)
  unfolding pin_upstream store
  pin_upstream-again lookup_host lookup_host' now later now' later' url c p h e =
      rw (h, e)
        (again-lem c url p later' now' (add64 later c.ttl_secs)
          (pin_upstream_url parse_url parse_ip lookup_host' url))
