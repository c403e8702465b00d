-- ===== src/Alerting/UrlGuard/PinCache.antt =====
-- The cache of pinned addresses (`PinCache`); the clock is read at the lookup and again at the insert.
-- `lookup_host` is an argument of each call, since a host resolves differently at different times.
use xira_net.Common.{
  ℕ, max, Option, none, some, List, [], ◌∷◌, Dict, get, insert, Text, Result, add64, ltb,
  if◌then◌else◌, ok, err, text_eq,
}
use xira_net.Net.{IpAddr}
use xira_net.Alerting.UrlGuard.{UrlGuardError, Url, PinnedUrl, pin_upstream_url}

pub record PinCache : Type 0 where
  pub inner : Dict Text (PinnedUrl × ℕ)
  pub ttl_secs : ℕ

unfoldable pub new : ℕ → PinCache
new ttl_secs = record { inner = []; ttl_secs = max ttl_secs 1 }

-- The entry to answer from at a time.
unfoldable pub fresh : ℕ → Option (PinnedUrl × ℕ) → Option PinnedUrl
fresh now none = none
fresh now (some (cached, exp)) = if ltb now exp then some cached else none

-- A result of `pin_upstream_url` is kept, an error is not.
unfoldable pub store :
    Text → ℕ → PinCache → Result PinnedUrl UrlGuardError → Result PinnedUrl UrlGuardError × PinCache
store url now c (err e) = (err e, c)
store url now c (ok p) = (ok p, record c { inner = insert url (p, add64 now c.ttl_secs) c.inner })

unfoldable pub pick_or_store :
    Text
    → ℕ
    → PinCache
    → Result PinnedUrl UrlGuardError
    → Option PinnedUrl
    → Result PinnedUrl UrlGuardError × PinCache
pick_or_store url now c r none = store url now c r
pick_or_store url now c r (some p) = (ok p, c)

-- Calls one after the other, each with what it resolves and its two readings of the clock.
pub record Call : Type 0 where
  pub lookup_host : Text → ℕ → Option (List IpAddr)
  pub now : ℕ
  pub later : ℕ
  pub url : Text

module _ (parse_url : Text → Option Url) (parse_ip : Text → Option IpAddr) where
  unfoldable pub pin_upstream :
      (Text → ℕ → Option (List IpAddr))
      → ℕ
      → ℕ
      → Text
      → PinCache
      → Result PinnedUrl UrlGuardError × PinCache
  unfolding pick_or_store
  pin_upstream lookup_host now later url c =
      pick_or_store url later c (pin_upstream_url parse_url parse_ip lookup_host url)
        (fresh now (get url c.inner))

  abbrev pub calls : List Call → PinCache → PinCache
  calls [] c = c
  calls (x ∷ xs) c = calls xs (pin_upstream x.lookup_host x.now x.later x.url c).1
