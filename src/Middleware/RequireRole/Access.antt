-- ===== src/Middleware/RequireRole/Access.antt =====
-- Who passes, and how each refusal is told.
use xira_net.Common.{
  ◌≡◌, refl, sym, ap, ◌∙◌, subst, ◌↔◌, inl, inr, true, Option, none, some, arith, get, get-modify,
  Text, ==_refl, Option-cases, some_inj, ok, nat_eq, text_eq,
}
use xira_net.Identity.Roles.{UserRole, satisfies}
use xira_net.Identity.Roles.Order.{satisfies_trans}
use xira_net.Identity.Accounts.{UserManager}
use xira_net.Identity.Accounts.Profile.{user_role, update_role}
use xira_net.Middleware.RequireRole.{check_role, call}

check_role-answer :
    (min_role : UserRole) (o : Option UserRole)
    → (check_role min_role o ≡ ok tt)
      ↔ ((role : UserRole) × (o ≡ some role) × (satisfies role min_role ≡ true))
unfolding check_role
check_role-answer min_role none =
    (λ h. absurd (ground (arith, h)), λ h. absurd (ground (arith, h.1)))
check_role-answer min_role (some role) = (
  λ h. (role, refl, ground (arith, h)),
  λ h. rw (subst (λ r. satisfies r min_role ≡ true) (sym (some_inj h.1)) h.2) refl,
)

user_role-update_role :
    (id : Text) (role : UserRole) (users : UserManager) (old : UserRole)
    → user_role id users ≡ some old
    → user_role id (update_role id role users).1 ≡ some role
unfolding user_role update_role
user_role-update_role id role users old h = elim (Option-cases (get id users.users)) [
  | inl n ↦ absurd (ground (arith, rw n at h))
  | inr (u, e) ↦ rw e (
      rw (get-modify id id (λ v. record v { role = role }) users.users)
        (rw (==_refl id) (rw e refl)))
]

-- A request passes the role check just when it has a session whose user is there with a role
-- that satisfies that of the route.
call_iff :
    (min_role : UserRole) (users : UserManager) (session : Option Text)
    → (call min_role users session ≡ ok tt) ↔ (
        (id : Text) × (role : UserRole) × (session ≡ some id)
        × (user_role id users ≡ some role)
        × (satisfies role min_role ≡ true))
unfolding call
call_iff min_role users none = (λ h. absurd (ground (arith, h)), λ h. absurd (ground (arith, h.2)))
call_iff min_role users (some id) = (
  λ h. let r = (check_role-answer min_role (user_role id users)).0 h in (id, r.0, refl, r.1, r.2),
  λ h.
      (check_role-answer min_role (user_role id users)).1
        (h.1, ap (λ i. user_role i users) (some_inj h.2) ∙ h.3, h.4),
)

-- A user whose role is raised to one that satisfies it keeps passing where the user passed.
pub call-update_role :
    (min_role role : UserRole) (old : UserRole) (users : UserManager) (id : Text)
    → user_role id users ≡ some old
    → satisfies role old ≡ true
    → call min_role users (some id) ≡ ok tt
    → call min_role (update_role id role users).1 (some id) ≡ ok tt
unfolding call
call-update_role min_role role old users id has up h =
    let r = (check_role-answer min_role (user_role id users)).0 h in
    (check_role-answer min_role (user_role id (update_role id role users).1)).1 (
      role,
      user_role-update_role id role users old has,
      satisfies_trans role old min_role up
          (subst (λ x. satisfies x min_role ≡ true) (some_inj (sym r.1 ∙ has)) r.2),
    )
