-- ===== src/Middleware/RateLimit/ClientIp.antt =====
-- Whose bucket a request is counted in, behind trusted proxies.
use mathlib.Core.List.{reverse, map-append, reverse-append}
use xira_net.Common.{
  ◌≡◌, refl, ap, ◌≢◌, ◌⊎◌, inl, inr, true, false, Option, none, some, List, [], ◌∷◌, ◌++◌, map,
  arith, Text, split, trim, split-append, all, is_empty, All, Bool-cases, Option-cases,
}
use xira_net.Net.{IpAddr}
use xira_net.Middleware.RateLimit.{
  CidrEntry, Inner, Walk, untrusted, malformed, exhausted, is_trusted, walk, client_of,
  behind_proxy, client_ip,
}

module _ (parse_ip : Text → Option IpAddr) (proxies : List CidrEntry) where
  -- A hop over which the walk goes on: empty, or the address of a trusted proxy.
  abbrev pub Passes : Text → Type 0
  Passes hop =
      (hop ≡ []) ⊎ ((ip : IpAddr) × (parse_ip hop ≡ some ip) × (is_trusted proxies ip ≡ true))

  walk-append :
      (xs ys : List Text)
      → walk parse_ip proxies xs ≢ exhausted
      → walk parse_ip proxies (xs ++ ys) ≡ walk parse_ip proxies xs
  unfolding walk
  walk-append [] ys h = absurd (h refl)
  walk-append (x ∷ xs) ys h = ground (arith, walk-append xs ys)

  walk_step :
      (hop : Text) (hops : List Text) (ip : IpAddr)
      → walk parse_ip proxies (hop ∷ hops) ≡ untrusted ip
      → (Passes hop × (walk parse_ip proxies hops ≡ untrusted ip))
        ⊎ ((parse_ip hop ≡ some ip) × (is_trusted proxies ip ≡ false))
  unfolding walk
  walk_step [] hops ip e = inl (inl refl, e)
  walk_step (c ∷ hop) hops ip e = elim (Option-cases (parse_ip (c ∷ hop))) [
    | inl bad ↦ absurd (ground arith)
    | inr (found, parsed) ↦ elim (Bool-cases (is_trusted proxies found)) [
      | inl trusted ↦ inl (inr (found, parsed, trusted), ground arith)
      | inr new ↦ inr (ground arith, ground arith)
    ]
  ]

  -- The walk stops at an address only if it is not the address of a trusted proxy and every hop
  -- that it passed is empty or is.
  pub walk-untrusted :
      (hops : List Text) (ip : IpAddr)
      → walk parse_ip proxies hops ≡ untrusted ip
      → (passed : List Text) × (hop : Text) × (rest : List Text) × (hops ≡ passed ++ hop ∷ rest)
        × All Passes passed
        × (parse_ip hop ≡ some ip)
        × (is_trusted proxies ip ≡ false)
  unfolding walk
  walk-untrusted [] ip e = cc
  walk-untrusted (hop ∷ hops) ip e = elim (walk_step hop hops ip e) [
    | inl (pass, later) ↦
        let (passed, stop, rest, split_at, all, parsed, new) = walk-untrusted hops ip later in
        (hop ∷ passed, stop, rest, ap (◌∷◌ hop) split_at, (pass, all), parsed, new)
    | inr (parsed, new) ↦ ([], hop, hops, refl, tt, parsed, new)
  ]

client_of_stopped :
    (parse_ip : Text → Option IpAddr) (show_ip : IpAddr → Text) (w : Walk) (xs ys : List Text)
    (peer : IpAddr)
    → w ≢ exhausted
    → client_of parse_ip show_ip w xs peer ≡ client_of parse_ip show_ip w ys peer
unfolding client_of
client_of_stopped parse_ip show_ip (untrusted ip) xs ys peer h = refl
client_of_stopped parse_ip show_ip malformed xs ys peer h = refl
client_of_stopped parse_ip show_ip exhausted xs ys peer h = absurd (h refl)

abbrev pub hops_of : Text → List Text
hops_of header = map trim (split b',' header)

walk_prepend :
    (parse_ip : Text → Option IpAddr) (proxies : List CidrEntry) (forged header : Text)
    → walk parse_ip proxies (reverse (hops_of header)) ≢ exhausted
    → walk parse_ip proxies (reverse (hops_of (forged ++ b',' ∷ header)))
      ≡ walk parse_ip proxies (reverse (hops_of header))
walk_prepend parse_ip proxies forged header h =
    rw
      (
        split-append b',' forged header,
        map-append trim (split b',' forged) (split b',' header),
        reverse-append (hops_of forged) (hops_of header),
      )
      (walk-append parse_ip proxies (reverse (hops_of header)) (reverse (hops_of forged)) h)

behind_proxy_prepend :
    (parse_ip : Text → Option IpAddr) (show_ip : IpAddr → Text) (proxies : List CidrEntry)
    (peer : IpAddr) (forged header : Text)
    → walk parse_ip proxies (reverse (hops_of header)) ≢ exhausted
    → behind_proxy parse_ip show_ip proxies peer (some (forged ++ b',' ∷ header))
      ≡ behind_proxy parse_ip show_ip proxies peer (some header)
unfolding behind_proxy
behind_proxy_prepend parse_ip show_ip proxies peer forged header h =
    rw (walk_prepend parse_ip proxies forged header h) (
      client_of_stopped parse_ip show_ip (walk parse_ip proxies (reverse (hops_of header))) _ _ peer
        h)

-- With trusted proxies and a header at which the walk does not run out, a text and a comma put
-- in front of the x-forwarded-for header do not change the address of the client.
pub client_ip_prepend :
    (parse_ip : Text → Option IpAddr) (show_ip : IpAddr → Text) (r : Inner) (peer : Option IpAddr)
    (forged header : Text)
    → is_empty r.trusted_proxies ≡ false
    → walk parse_ip r.trusted_proxies (reverse (hops_of header)) ≢ exhausted
    → client_ip parse_ip show_ip r
        (record { peer = peer; x_forwarded_for = some (forged ++ b',' ∷ header) })
      ≡ client_ip parse_ip show_ip r (record { peer = peer; x_forwarded_for = some header })
unfolding client_ip
client_ip_prepend parse_ip show_ip r none forged header n h = rw n
client_ip_prepend parse_ip show_ip r (some peer) forged header n h =
    rw (n, behind_proxy_prepend parse_ip show_ip r.trusted_proxies peer forged header h)
