-- ===== src/Identity/Roles/Tests.antt =====
-- Which role satisfies which.
use xira_net.Common.{◌≡◌, refl, true, nat_eq, text_eq}
use xira_net.Identity.Roles.{admin, developer, satisfies, level, role_eqb, is_custom}

admin_over_developer : satisfies admin developer ≡ true
unfolding satisfies level role_eqb is_custom
admin_over_developer = refl
