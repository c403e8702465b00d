-- ===== src/Middleware/RequireRole.antt =====
-- src/middleware/require_role.rs: the routes of the admin API that want a role. The session that the
-- middleware before it leaves is an argument; the answer is one of the errors or goes on.
pub mod Access
mod Tests
use xira_net.Common.{
  ℕ, not, Option, none, some, Text, Result, if◌then◌else◌, ok, err, nat_eq, text_eq,
}
use xira_net.Identity.Roles.{UserRole, satisfies}
use xira_net.Identity.Accounts.{UserManager}
use xira_net.Identity.Accounts.Profile.{user_role}

pub data RoleError : Type 0 where
  session_required user_not_found : RoleError
  insufficient_role : UserRole → UserRole → RoleError

unfoldable pub check_role : UserRole → Option UserRole → Result (Unit {0}) RoleError
unfolding satisfies
check_role min_role none = err user_not_found
check_role min_role (some role) =
    if not (satisfies role min_role) then err (insufficient_role min_role role) else ok tt

-- `call`, on the user id of the session.
unfoldable pub call : UserRole → UserManager → Option Text → Result (Unit {0}) RoleError
unfolding check_role
call min_role users none = err session_required
call min_role users (some user_id) = check_role min_role (user_role user_id users)

-- The status of each refusal.
unfoldable pub status : RoleError → ℕ
status session_required = 401
status user_not_found = 403
status (insufficient_role required actual) = 403
