-- ===== src/Identity/Accounts/Access.antt =====
-- From the registration to the first login.
use xira_net.Common.{
  ℕ, ◌≡◌, refl, ap, ◌∙◌, inl, inr, Bool, true, false, some, arith, get, get-insert_self, Text,
  codes, Option-cases, ok, err, nat_eq, text_eq,
}
use xira_net.Identity.Roles.{UserRole}
use xira_net.Identity.Accounts.{
  User, UserManager, success, normalize_email, new_user, register, add_user, logged_in, user_of,
  verify_password, login, authenticate,
}
use xira_net.Identity.Accounts.Login.{IsUnlocked, authenticate-unlocked}

register-add_user :
    (user u : User) (m : UserManager)
    → (register user m).0 ≡ ok u
    → (register user m).1 ≡ add_user (normalize_email user.email) user m
unfolding register
register-add_user user u m h =
    elim (Option-cases (get (normalize_email user.email) m.email_index)) [
      | inl free ↦ rw free refl
      | inr (id, e) ↦ absurd (refused (rw e at h))
    ]
  where
    refused : err (codes "Email already registered") ≡ ok u → ⊥
    refused e = ground (arith, e)

user_of-add_user :
    (user : User) (m : UserManager)
    → user_of (normalize_email user.email) (add_user (normalize_email user.email) user m)
      ≡ some user
unfolding user_of
user_of-add_user user m =
    rw (get-insert_self (normalize_email user.email) user.id m.email_index)
      (get-insert_self user.id user m.users)

module _ (argon2_verify : Text → Text → Bool) where
  login-lets-in :
      (now : ℕ) (token key password : Text) (m : UserManager) (user : User)
      → user.enabled ≡ true
      → user.mfa_enabled ≡ false
      → verify_password argon2_verify password user.password_hash ≡ true
      → (login argon2_verify now token key password m (some user)).0
        ≡ success (logged_in now user) token
  unfolding login
  login-lets-in now token key password m user on plain right = rw on (rw right (rw plain refl))

  -- Who has registered logs in with the password of the hash, under any spelling of the email
  -- that normalises alike, while it is not locked.
  pub authenticate-register :
      (id username hash password email spelt token : Text) (role : UserRole) (since now later : ℕ)
      (m : UserManager) (u : User)
      → (register (new_user id since email username hash role) m).0 ≡ ok u
      → normalize_email spelt ≡ normalize_email email
      → verify_password argon2_verify password hash ≡ true
      → IsUnlocked now
          (normalize_email spelt)
          (register (new_user id since email username hash role) m).1
      → (authenticate argon2_verify now later token spelt password
          (register (new_user id since email username hash role) m).1).0
        ≡ success (logged_in later (new_user id since email username hash role)) token
  authenticate-register id username hash password email spelt token role since now later m u h same
        right free =
      let user = new_user id since email username hash role in
      let m1 = (register user m).1 in
      let found : user_of (normalize_email spelt) m1 ≡ some user =
        ap (user_of (normalize_email spelt)) (register-add_user user u m h)
        ∙ rw same (user_of-add_user user m) in
      ap (λ p. p.0) (authenticate-unlocked argon2_verify now later token spelt password m1 free)
      ∙ rw found (login-lets-in later token (normalize_email spelt) password _ user refl refl right)
