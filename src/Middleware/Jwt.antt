-- ===== src/Middleware/Jwt.antt =====
-- The path that the JWT middleware decides on: normalize_path and is_exempt_path of src/middleware/jwt.rs.
pub mod Segments
pub mod Normal
pub mod Exempt
pub mod Call
mod Tests
use xira_net.Common.{
  ℕ, Bool, false, not, ◌&&◌, ◌||◌, Option, none, some, List, [], ◌∷◌, ◌++◌, Text, codes,
  strip_prefix, starts_with, split, ◌==◌, length, drop, any, is_empty, ltb, eqb, if◌then◌else◌,
  nat_eq, text_eq,
}

-- What `ends_with('/')` reads: whether the last byte is the given one.
unfoldable pub ends_with : ℕ → Text → Bool
ends_with c [] = false
ends_with c (d ∷ []) = eqb d c
ends_with c (d ∷ e ∷ s) = ends_with c (e ∷ s)

unfoldable pub begins_with : ℕ → Text → Bool
begins_with c [] = false
begins_with c (d ∷ s) = eqb d c

-- One round of the loop over the segments. The top of the stack stands first.
unfoldable pub resolve_segment : Text → List Text → List Text
resolve_segment seg stack =
    if is_empty seg || (seg == codes ".")
    then stack
    else if seg == codes ".."
    then drop 1 stack
    else seg ∷ stack

unfoldable pub resolve_onto : List Text → List Text → List Text
unfolding resolve_segment
resolve_onto stack [] = stack
resolve_onto stack (seg ∷ segs) = resolve_onto (resolve_segment seg stack) segs

abbrev pub reverse_onto : List Text → List Text → List Text
reverse_onto done [] = done
reverse_onto done (x ∷ xs) = reverse_onto (x ∷ done) xs

-- The segments that are left on the stack, from its bottom up.
unfoldable pub resolved : Text → List Text
unfolding resolve_onto
resolved p = reverse_onto [] (resolve_onto [] (split b'/' p))

-- `stack.join("/")`.
unfoldable pub join_slash : List Text → Text
join_slash [] = []
join_slash (x ∷ []) = x
join_slash (x ∷ y ∷ xs) = x ++ b'/' ∷ join_slash (y ∷ xs)

unfoldable pub has_trailing_slash : Text → Bool
unfolding ends_with
has_trailing_slash p = ltb 1 (length p) && ends_with b'/' p

unfoldable pub with_leading : Bool → Text → Text
with_leading leading s = if leading then b'/' ∷ s else s

unfoldable pub with_trailing : Bool → Text → Text
unfolding ends_with
with_trailing trailing out = if trailing && not (ends_with b'/' out) then out ++ b'/' ∷ [] else out

unfoldable pub normalize_path : Text → Text
unfolding with_leading with_trailing resolved join_slash has_trailing_slash begins_with
normalize_path p =
    with_trailing (has_trailing_slash p)
      (with_leading (begins_with b'/' p) (join_slash (resolved p)))

abbrev pub exempt_literals : List Text
exempt_literals =
    codes "/metrics"
    ∷ codes "/health"
    ∷ codes "/dashboard"
    ∷ codes "/ws/dashboard"
    ∷ codes "/ws/metrics"
    ∷ []

unfoldable pub is_exempt_path : Text → Bool
is_exempt_path path =
    any (λ t. path == t) exempt_literals
    || starts_with path (codes "/xira/")
    || (path == codes "/xira")
    || starts_with path (codes "/auth/")
    || (path == codes "/auth")

-- The key that a token is checked under; the key of RS256 is one that `jsonwebtoken` has parsed.
pub data JwtKey (DecodingKey : Type 0) : Type 0 where
  hmac : List ℕ → JwtKey DecodingKey
  rsa_pem : DecodingKey → JwtKey DecodingKey

pub record JwtAuth (DecodingKey Algorithm : Type 0) : Type 0 where
  pub key : JwtKey DecodingKey
  pub algorithm : Algorithm
  pub issuer : Option Text
  pub audience : Option Text
  pub enabled : Bool

-- What `decode` of `jsonwebtoken` is told: one algorithm, and an audience only where one is set.
-- The expiry is always required and checked, without leeway.
pub record Validation (Algorithm : Type 0) : Type 0 where
  pub algorithms : List Algorithm
  pub required_issuer : Option Text
  pub required_audience : Option Text

pub data Outcome : Type 0 where
  forwarded missing_token invalid_token : Outcome

abbrev pub validation :
    {DecodingKey Algorithm : Type 0} → JwtAuth DecodingKey Algorithm → Validation Algorithm
validation m = record {
  algorithms = m.algorithm ∷ [];
  required_issuer = m.issuer;
  required_audience = m.audience;
}

unfoldable pub bearer : Option Text → Option Text
bearer none = none
bearer (some header) = strip_prefix (codes "Bearer ") header

module _ {DecodingKey Algorithm : Type 0}
    (decode : Text → JwtKey DecodingKey → Validation Algorithm → Bool) where
  unfoldable pub check_token : JwtAuth DecodingKey Algorithm → Option Text → Outcome
  check_token m none = missing_token
  check_token m (some token) =
      if decode token m.key (validation m) then forwarded else invalid_token

  -- `call`, on the path and the Authorization header of the request.
  unfoldable pub call : JwtAuth DecodingKey Algorithm → Text → Option Text → Outcome
  unfolding check_token bearer normalize_path is_exempt_path
  call m path authorization =
      if not m.enabled
      then forwarded
      else if is_exempt_path (normalize_path path)
      then forwarded
      else check_token m (bearer authorization)
