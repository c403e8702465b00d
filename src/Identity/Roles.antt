-- ===== src/Identity/Roles.antt =====
-- src/identity/users.rs: the roles and their order, and how a role is written to the database and read.
pub mod Order
mod Tests
use xira_net.Common.{
  ℕ, ◌-◌, Bool, true, false, ◌++◌, Text, codes, starts_with, ◌==◌, length, drop, take, leb,
  if◌then◌else◌, nat_eq, text_eq,
}

pub data UserRole : Type 0 where
  super_admin admin developer viewer service : UserRole
  custom : Text → UserRole

unfoldable pub level : UserRole → ℕ
level super_admin = 100
level admin = 80
level developer = 60
level service = 40
level viewer = 20
level (custom s) = 0

-- The derived `PartialEq`.
unfoldable pub role_eqb : UserRole → UserRole → Bool
role_eqb super_admin super_admin = true
role_eqb admin admin = true
role_eqb developer developer = true
role_eqb viewer viewer = true
role_eqb service service = true
role_eqb (custom s) (custom t) = s == t
role_eqb _ _ = false

unfoldable pub is_custom : UserRole → Bool
is_custom (custom s) = true
is_custom r = false

-- `self.satisfies(required)`.
unfoldable pub satisfies : UserRole → UserRole → Bool
unfolding role_eqb level is_custom
satisfies r required =
    if is_custom required
    then role_eqb r required
    else if is_custom r
    then false
    else leb (level required) (level r)

unfoldable pub as_str : UserRole → Text
as_str super_admin = codes "SuperAdmin"
as_str admin = codes "Admin"
as_str developer = codes "Developer"
as_str viewer = codes "Viewer"
as_str service = codes "Service"
as_str (custom s) = s

-- `format!("{:?}", role)`, with the `Debug` of `str` as a function.
unfoldable pub debug_role : (Text → Text) → UserRole → Text
unfolding as_str
debug_role debug_str (custom s) = codes "Custom(" ++ (debug_str s ++ codes ")")
debug_role debug_str r = as_str r

-- `s[7..s.len()-1]`; on "Custom(" itself the source would panic.
abbrev pub inside : Text → Text
inside s = take (length s - 1 - 7) (drop 7 s)

-- The match on the stored text when the users are loaded.
unfoldable pub parse_role : Text → UserRole
unfolding starts_with
parse_role s =
    if s == codes "SuperAdmin"
    then super_admin
    else if s == codes "Admin"
    then admin
    else if s == codes "Developer"
    then developer
    else if s == codes "Service"
    then service
    else if starts_with s (codes "Custom(")
    then custom (inside s)
    else viewer
