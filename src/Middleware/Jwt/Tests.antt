-- ===== src/Middleware/Jwt/Tests.antt =====
-- Runs of `normalize_path` and `is_exempt_path`, among them the source's own tests.
use xira_net.Common.{
  ℕ, ◌≡◌, refl, ◌⊎◌, Bool, true, none, some, [], Text, codes, strip_prefix, starts_with, split_from,
  split, ◌==◌, nat_eq, text_eq,
}
use xira_net.Middleware.Jwt.{
  JwtKey, hmac, JwtAuth, Validation, forwarded, check_token, bearer, call, normalize_path,
  is_exempt_path, resolved, begins_with, has_trailing_slash, join_slash, with_leading,
  with_trailing, ends_with, resolve_onto, resolve_segment,
}
use xira_net.Middleware.Jwt.Normal.{normalize_path_idem}
use xira_net.Middleware.Jwt.Call.{UnderOpenName, Carries, call-forwarded}

collapses : normalize_path (codes "/a//b///c") ≡ codes "/a/b/c"
unfolding normalize_path has_trailing_slash resolved join_slash with_leading with_trailing
    begins_with ends_with resolve_onto resolve_segment split split_from
collapses = refl

leaves_xira : normalize_path (codes "/xira/../api/secret") ≡ codes "/api/secret"
unfolding normalize_path has_trailing_slash resolved join_slash with_leading with_trailing
    begins_with ends_with resolve_onto resolve_segment split split_from
leaves_xira = refl

-- A path that the gateway looks up under /api, which the middleware lets through.
reached_from_api : is_exempt_path (normalize_path (codes "/api/../auth/me")) ≡ true
unfolding is_exempt_path starts_with strip_prefix normalize_path has_trailing_slash resolved
    join_slash with_leading with_trailing begins_with ends_with resolve_onto resolve_segment split
    split_from
reached_from_api = refl

normalize_path_idem_example :
    normalize_path (normalize_path (codes "/a/./../b/")) ≡ normalize_path (codes "/a/./../b/")
normalize_path_idem_example = normalize_path_idem (codes "/a/./../b/")

-- A decoder that takes one token.
abbrev one_token : Text → JwtKey ℕ → Validation ℕ → Bool
one_token token key v = token == codes "t"

abbrev jwt : JwtAuth ℕ ℕ
jwt = record { key = hmac []; algorithm = 0; issuer = none; audience = none; enabled = true }

token_passes : call one_token jwt (codes "/api/x") (some (codes "Bearer t")) ≡ forwarded
unfolding call check_token bearer is_exempt_path starts_with strip_prefix normalize_path
    has_trailing_slash resolved join_slash with_leading with_trailing begins_with ends_with
    resolve_onto resolve_segment split split_from
token_passes = refl

call-forwarded_example :
    UnderOpenName (codes "/api/x") ⊎ Carries one_token jwt (some (codes "Bearer t"))
call-forwarded_example =
    call-forwarded one_token jwt (codes "/api/x") (some (codes "Bearer t")) refl token_passes
