-- ===== src/Middleware/Jwt/Call.antt =====
-- What the middleware lets through.
use xira_net.Common.{
  ◌≡◌, refl, sym, ap, ◌∙◌, ◌⊎◌, inl, inr, Bool, true, false, Option, none, some, List, ◌∷◌, ◌++◌,
  arith, Text, codes, strip_prefix_sound, Bool-cases, nat_eq, text_eq,
}
use xira_net.Middleware.Jwt.{
  normalize_path, is_exempt_path, resolved, JwtKey, JwtAuth, Validation, forwarded, validation,
  check_token, bearer, call,
}
use xira_net.Middleware.Jwt.Exempt.{open_name, is_exempt_path-open_name}

-- The resolved path begins with one of the open names.
abbrev pub UnderOpenName : Text → Type 0
UnderOpenName path =
    (s : Text) × (rest : List Text) × (resolved path ≡ s ∷ rest) × (open_name s ≡ true)

module _ {DecodingKey Algorithm : Type 0}
    (decode : Text → JwtKey DecodingKey → Validation Algorithm → Bool) where
  -- The header carries a token that the decoder accepts under the configured key.
  abbrev pub Carries : JwtAuth DecodingKey Algorithm → Option Text → Type 0
  Carries m authorization =
      (token : Text) × (authorization ≡ some (codes "Bearer " ++ token))
      × (decode token m.key (validation m) ≡ true)

  checked-token :
      (m : JwtAuth DecodingKey Algorithm) (o : Option Text)
      → check_token decode m o ≡ forwarded
      → (token : Text) × (o ≡ some token) × (decode token m.key (validation m) ≡ true)
  unfolding check_token
  checked-token m none h = ground (arith, h)
  checked-token m (some token) h = (token, refl, ground (arith, h))

  bearer-header :
      (authorization : Option Text) (token : Text)
      → bearer authorization ≡ some token
      → authorization ≡ some (codes "Bearer " ++ token)
  unfolding bearer
  bearer-header none token h = ground (arith, h)
  bearer-header (some header) token h =
      ap some (strip_prefix_sound (codes "Bearer ") header token h)

  not_exempt :
      (m : JwtAuth DecodingKey Algorithm) (path : Text) (authorization : Option Text)
      → m.enabled ≡ true
      → is_exempt_path (normalize_path path) ≡ false
      → call decode m path authorization ≡ check_token decode m (bearer authorization)
  unfolding call
  not_exempt m path authorization on n = rw on (rw n refl)

  -- With the middleware on, a request goes through only if its resolved path begins with an
  -- open name or its header carries a token that the decoder accepts under the configured key,
  -- algorithm, issuer and audience.
  pub call-forwarded :
      (m : JwtAuth DecodingKey Algorithm) (path : Text) (authorization : Option Text)
      → m.enabled ≡ true
      → call decode m path authorization ≡ forwarded
      → UnderOpenName path ⊎ Carries m authorization
  call-forwarded m path authorization on h =
      elim (Bool-cases (is_exempt_path (normalize_path path))) [
        | inl e ↦ let o = is_exempt_path-open_name path e in inl (o.0, o.1, o.2, o.3)
        | inr n ↦
            let c =
              checked-token m (bearer authorization)
                (sym (not_exempt m path authorization on n) ∙ h) in
            inr (c.0, bearer-header authorization c.0 c.1, c.2)
      ]
