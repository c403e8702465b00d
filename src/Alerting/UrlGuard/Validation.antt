-- ===== src/Alerting/UrlGuard/Validation.antt =====
-- Validating a URL against pinning it.
use xira_net.Common.{
  ℕ, ◌≡◌, refl, ap, ◌∙◌, inl, inr, Bool, true, false, not, Option, none, some, List, [], ◌∷◌, Text,
  to_ascii_lowercase, Result, ◌>>=◌, Bool-cases, is_some, ok, err,
}
use xira_net.Alerting.UrlGuard.{
  UrlGuardError, GuardLevel, invalid, bad_scheme, missing_host, forbidden, dns_error, is_ip_allowed,
  Url, first_pinned, all_allowed, pin_host, pin_url, validate_host, validate_url, or_error, guard,
  is_http, host_blocked, port_or_443,
}
use xira_net.Net.{IpAddr}

-- A result without its value: whether it succeeded, and its error.
pub verdict : {A : Type 0} → Result A UrlGuardError → Result (Unit {0}) UrlGuardError
verdict (ok a) = ok tt
verdict (err e) = err e

verdict-or_error :
    {A B : Type 0} (o : Option A) (e : UrlGuardError) (f : A → Result B UrlGuardError)
    (g : A → Result (Unit {0}) UrlGuardError)
    → ((a : A) → o ≡ some a → verdict (f a) ≡ g a)
    → verdict (or_error o e >>= f) ≡ (or_error o e >>= g)
unfolding verdict
verdict-or_error none e f g h = refl
verdict-or_error (some a) e f g h = h a refl

verdict-guard :
    {B : Type 0} (b : Bool) (e : UrlGuardError) (f : Unit {0} → Result B UrlGuardError)
    (g : Unit {0} → Result (Unit {0}) UrlGuardError)
    → verdict (f tt) ≡ g tt
    → verdict (guard b e >>= f) ≡ (guard b e >>= g)
unfolding verdict
verdict-guard true e f g h = h
verdict-guard false e f g h = refl

-- The two loops, whatever is made of the pinned address.
verdict-loop :
    {B : Type 0} (f : IpAddr → B) (level : GuardLevel) (pinned : Option IpAddr) (ips : List IpAddr)
    → verdict (first_pinned level pinned ips >>= λ o. or_error o dns_error >>= λ ip. ok (f ip))
      ≡ all_allowed level (is_some pinned) ips
unfolding verdict first_pinned all_allowed
verdict-loop f level none [] = refl
verdict-loop f level (some ip) [] = refl
verdict-loop f level none (j ∷ ips) = elim (Bool-cases (is_ip_allowed j level)) [
  | inl t ↦ rw t (verdict-loop f level (some j) ips)
  | inr t ↦ rw t refl
]
verdict-loop f level (some i) (j ∷ ips) = elim (Bool-cases (is_ip_allowed j level)) [
  | inl t ↦ rw t (verdict-loop f level (some i) ips)
  | inr t ↦ rw t refl
]

or_error-some :
    {A B : Type 0} {o : Option A} {a : A} (e : UrlGuardError) (f : A → Result B UrlGuardError)
    → o ≡ some a
    → (or_error o e >>= f) ≡ f a
or_error-some e f h = rw h refl

module _ (parse_url : Text → Option Url) (parse_ip : Text → Option IpAddr)
    (lookup_host : Text → ℕ → Option (List IpAddr)) where
  verdict-pin_host :
      (raw host : Text) (u : Url) (port : ℕ) (level : GuardLevel) (o : Option IpAddr)
      → u.port_or_known_default ≡ some port
      → verdict (pin_host parse_url parse_ip lookup_host raw host port level o)
        ≡ validate_host parse_url parse_ip lookup_host u host level o
  unfolding pin_host validate_host port_or_443 verdict
  verdict-pin_host raw host u port level (some ip) e = elim (Bool-cases (is_ip_allowed ip level)) [
    | inl t ↦ rw t refl
    | inr t ↦ rw t refl
  ]
  verdict-pin_host raw host u port level none e = rw e (
      verdict-or_error (lookup_host host port) dns_error _ _
        (λ addrs _. verdict-loop _ level none addrs))

  -- When the URL that the text parses to, if it does, has a port, of its own or of its scheme,
  -- validating a URL succeeds exactly when pinning it does, and fails with the same error
  -- otherwise.
  pub validate_url-pin_url :
      (raw : Text) (level : GuardLevel)
      → ((u : Url) → parse_url raw ≡ some u → (port : ℕ) × (u.port_or_known_default ≡ some port))
      → verdict (pin_url parse_url parse_ip lookup_host raw level)
        ≡ validate_url parse_url parse_ip lookup_host raw level
  unfolding pin_url validate_url
  validate_url-pin_url raw level k = verdict-or_error (parse_url raw) invalid _ _ (λ u e.
      let (port, ep) = k u e in
      verdict-guard (is_http u.scheme) bad_scheme _ _ (
        verdict-or_error u.host missing_host _ _ (λ host _.
          verdict-guard (not (host_blocked level (to_ascii_lowercase host))) forbidden _ _ (
            ap verdict (or_error-some missing_host _ ep)
            ∙ verdict-pin_host raw host u port level (parse_ip host) ep))))
