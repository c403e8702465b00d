-- ===== src/Identity/Accounts/Profile.antt =====
-- The other operations on an account: its second factor, its role and its permissions.
use mathlib.Core.Option
use xira_net.Common.{
  ℕ, Bool, true, false, not, ◌||◌, Option, none, some, List, [], ◌∷◌, ◌++◌, get, modify, Text,
  codes, ◌==◌, length, any, Result, if◌then◌else◌, is_some, ok, err, nat_eq, text_eq,
}
use xira_net.Identity.Roles.{UserRole, super_admin, role_eqb}
use xira_net.Identity.Mfa.{generate_secret, verify_totp}
use xira_net.Identity.Accounts.{
  User, UserManager, AuthResult, invalid_credentials, account_disabled, success, logged_in,
}

abbrev pub with_user : Text → (User → User) → UserManager → UserManager
with_user id f m = record m { users = modify id f m.users }

unfoldable pub get_user : Text → UserManager → Option User
get_user id m = get id m.users

unfoldable pub user_role : Text → UserManager → Option UserRole
user_role id m = Option.map User.role (get id m.users)

-- The seed that is handed out, from the bytes that were drawn.
unfoldable pub start_mfa_enrollment : List ℕ → Text → UserManager → Result Text Text × UserManager
start_mfa_enrollment drawn user_id m =
    if is_some (get user_id m.users)
    then (
      ok (generate_secret drawn),
      with_user user_id (λ u. record u { mfa_secret = some (generate_secret drawn) }) m,
    )
    else (err (codes "user not found"), m)

-- An operation that answers whether the user is there.
abbrev pub if_found : Text → (User → User) → UserManager → Bool × UserManager
if_found id f m = if is_some (get id m.users) then (true, with_user id f m) else (false, m)

unfoldable pub disable_mfa : Text → UserManager → Bool × UserManager
disable_mfa user_id m =
    if_found user_id (λ u. record u { mfa_enabled = false; mfa_secret = none }) m

unfoldable pub disable_user : Text → UserManager → Bool × UserManager
disable_user id m = if_found id (λ u. record u { enabled = false }) m

unfoldable pub update_role : Text → UserRole → UserManager → Bool × UserManager
update_role id role m = if_found id (λ u. record u { role = role }) m

abbrev pub push_once : Text → List Text → List Text
push_once p ps = if any (λ q. q == p) ps then ps else ps ++ p ∷ []

unfoldable pub add_permission : Text → Text → UserManager → Bool × UserManager
add_permission id permission m =
    if_found id (λ u. record u { permissions = push_once permission u.permissions }) m

unfoldable pub permits : Text → Option User → Bool
permits permission none = false
permits permission (some u) =
    any (λ q. q == permission) u.permissions || role_eqb u.role super_admin

unfoldable pub has_permission : Text → Text → UserManager → Bool
unfolding permits
has_permission id permission m = permits permission (get id m.users)

unfoldable pub user_count : UserManager → ℕ
user_count m = length m.users

module _ (hmac_sha1 : List ℕ → List ℕ → Option (List ℕ)) where
  unfoldable pub code_accepted : ℕ → Text → Option Text → Bool
  code_accepted now code none = false
  code_accepted now code (some secret) = verify_totp hmac_sha1 now secret code

  unfoldable pub setup_on : ℕ → Text → Text → UserManager → Option User → Bool × UserManager
  unfolding code_accepted
  setup_on now user_id code m none = (false, m)
  setup_on now user_id code m (some user) =
      if code_accepted now code user.mfa_secret
      then (true, with_user user_id (λ u. record u { mfa_enabled = true }) m)
      else (false, m)

  unfoldable pub verify_mfa_setup : ℕ → Text → Text → UserManager → Bool × UserManager
  unfolding setup_on
  verify_mfa_setup now user_id code m = setup_on now user_id code m (get user_id m.users)

  unfoldable pub mfa_login_on :
      ℕ → ℕ → Text → Text → Text → UserManager → Option User → AuthResult × UserManager
  unfolding code_accepted
  mfa_login_on now later token user_id code m none = (invalid_credentials, m)
  mfa_login_on now later token user_id code m (some user) =
      if not user.enabled
      then (account_disabled, m)
      else if not user.mfa_enabled
      then (invalid_credentials, m)
      else if not (code_accepted now code user.mfa_secret)
      then (invalid_credentials, m)
      else (success (logged_in later user) token, with_user user_id (logged_in later) m)

  -- `complete_mfa_login`, with the clock read at the code and again for the login.
  unfoldable pub complete_mfa_login :
      ℕ → ℕ → Text → Text → Text → UserManager → AuthResult × UserManager
  unfolding mfa_login_on
  complete_mfa_login now later token user_id code m =
      mfa_login_on now later token user_id code m (get user_id m.users)
