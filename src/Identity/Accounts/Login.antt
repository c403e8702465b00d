-- ===== src/Identity/Accounts/Login.antt =====
-- Who is let in, and what a refusal tells.
use xira_net.Common.{
  ℕ, ◌≡◌, refl, sym, ap, ◌∙◌, ◌≢◌, inl, inr, Bool, true, false, Option, none, some, List, arith,
  get, Text, Option-cases, nat_eq, text_eq,
}
use xira_net.Identity.Accounts.{
  User, UserManager, FailedAttempt, success, locked_out, normalize_email, lockout_of, lockout_check,
  logged_in, user_of, verify_password, login, after_lockout, authenticate,
}
use xira_net.Identity.Accounts.Profile.{code_accepted, mfa_login_on, complete_mfa_login}

-- The lock does not hold an email.
abbrev pub IsUnlocked : ℕ → Text → UserManager → Type 0
IsUnlocked now email m = (lockout_of now (get email m.failed_attempts)).0 ≡ none

held-kept :
    (now : ℕ) (o : Option FailedAttempt) (retry : ℕ)
    → (lockout_of now o).0 ≡ some retry
    → (lockout_of now o).1 ≡ false
unfolding lockout_of
held-kept now none retry h = ground (arith, h)
held-kept now (some e) retry h = ground (arith, h)

locked-success : (retry : ℕ) (u : User) (t : Text) → locked_out retry ≢ success u t
locked-success retry u t h = ground (arith, h)

module _ (argon2_verify : Text → Text → Bool) where
  -- The user whom a password lets in at once.
  abbrev pub LetsIn : Text → Text → UserManager → User → Type 0
  LetsIn email_key password m user =
      (user_of email_key m ≡ some user)
      × (user.enabled ≡ true)
      × (user.mfa_enabled ≡ false)
      × (verify_password argon2_verify password user.password_hash ≡ true)

  login-success :
      (now : ℕ) (token key password : Text) (m : UserManager) (o : Option User) (u : User)
      (t : Text)
      → (login argon2_verify now token key password m o).0 ≡ success u t
      → (user : User) × (o ≡ some user)
        × (user.enabled ≡ true)
        × (user.mfa_enabled ≡ false)
        × (verify_password argon2_verify password user.password_hash ≡ true)
        × (u ≡ logged_in now user)
  unfolding login
  login-success now token key password m none u t h = ground (arith, h)
  login-success now token key password m (some user) u t h =
      (user, refl, ground (arith, h), ground (arith, h), ground (arith, h), ground (arith, h))

  passed :
      (now : ℕ) (token key password : Text) (p : Option ℕ × UserManager)
      → p.0 ≡ none
      → after_lockout argon2_verify now token key password p
        ≡ login argon2_verify now token key password p.1 (user_of key p.1)
  unfolding after_lockout
  passed now token key password (none, m) e = refl
  passed now token key password (some retry, m) e = ground (arith, e)

  held :
      (now : ℕ) (token key password : Text) (p : Option ℕ × UserManager) (retry : ℕ)
      → p.0 ≡ some retry
      → after_lockout argon2_verify now token key password p ≡ (locked_out retry, p.1)
  unfolding after_lockout
  held now token key password (none, m) retry e = ground (arith, e)
  held now token key password (some r, m) retry e = ground (arith, e)

  -- What the login works on once the lock let it pass.
  pub authenticate-unlocked :
      (now later : ℕ) (token email password : Text) (m : UserManager)
      → IsUnlocked now (normalize_email email) m
      → authenticate argon2_verify now later token email password m
        ≡ login argon2_verify later token
            (normalize_email email)
            password
            (lockout_check now (normalize_email email) m).1
            (user_of (normalize_email email) m)
  unfolding authenticate lockout_check user_of
  authenticate-unlocked now later token email password m h =
      passed later token (normalize_email email) password
        (lockout_check now (normalize_email email) m) h

  pub authenticate-locked :
      (now later : ℕ) (token email password : Text) (m : UserManager) (retry : ℕ)
      → (lockout_of now (get (normalize_email email) m.failed_attempts)).0 ≡ some retry
      → authenticate argon2_verify now later token email password m ≡ (locked_out retry, m)
  unfolding authenticate lockout_check
  authenticate-locked now later token email password m retry h =
      held later token (normalize_email email) password
        (lockout_check now (normalize_email email) m) retry h
      ∙ rw (held-kept now (get (normalize_email email) m.failed_attempts) retry h) refl

  -- A login that succeeds found the email unlocked and an enabled user without a second factor,
  -- whose password it was; the user that it returns is that one with the login noted.
  pub authenticate-success :
      (now later : ℕ) (token email password : Text) (m : UserManager) (u : User) (t : Text)
      → (authenticate argon2_verify now later token email password m).0 ≡ success u t
      → IsUnlocked now (normalize_email email) m
        × ((user : User) × LetsIn (normalize_email email) password m user
            × (u ≡ logged_in later user))
  authenticate-success now later token email password m u t h =
      elim (Option-cases (lockout_of now (get (normalize_email email) m.failed_attempts)).0) [
        | inl n ↦
            let r =
              login-success later token (normalize_email email) password _
                (user_of (normalize_email email) m) u t
                (sym (ap (λ p. p.0) (authenticate-unlocked now later token email password m n))
                  ∙ h) in
            (n, (r.0, (r.1, r.2, r.3, r.4), r.5))
        | inr (retry, e) ↦ absurd (
            locked-success retry u t (
              ap (λ p. p.0) (sym (authenticate-locked now later token email password m retry e))
              ∙ h))
      ]

  -- An email that nobody has and a wrong password of an enabled account get the same answer, and count the same.
  pub authenticate_uniform :
      (now later : ℕ) (token email password : Text) (m : UserManager) (user : User)
      → IsUnlocked now (normalize_email email) m
      → user_of (normalize_email email) m ≡ some user
      → user.enabled ≡ true
      → verify_password argon2_verify password user.password_hash ≡ false
      → authenticate argon2_verify now later token email password m
        ≡ login argon2_verify later token
            (normalize_email email)
            password
            (lockout_check now (normalize_email email) m).1
            none
  unfolding login
  authenticate_uniform now later token email password m user n found on wrong =
      authenticate-unlocked now later token email password m n ∙ rw found (rw on (rw wrong refl))

module _ (hmac_sha1 : List ℕ → List ℕ → Option (List ℕ)) where
  mfa_login_on-success :
      (now later : ℕ) (token id code : Text) (m : UserManager) (o : Option User) (u : User)
      (t : Text)
      → (mfa_login_on hmac_sha1 now later token id code m o).0 ≡ success u t
      → (user : User) × (o ≡ some user)
        × (user.enabled ≡ true)
        × (user.mfa_enabled ≡ true)
        × (code_accepted hmac_sha1 now code user.mfa_secret ≡ true)
        × (u ≡ logged_in later user)
  unfolding mfa_login_on
  mfa_login_on-success now later token id code m none u t h = ground (arith, h)
  mfa_login_on-success now later token id code m (some user) u t h =
      (user, refl, ground (arith, h), ground (arith, h), ground (arith, h), ground (arith, h))

  -- The second step of a login succeeds only for an enabled user with a second factor whose code it was.
  pub complete_mfa_login-success :
      (now later : ℕ) (token id code : Text) (m : UserManager) (u : User) (t : Text)
      → (complete_mfa_login hmac_sha1 now later token id code m).0 ≡ success u t
      → (user : User) × (get id m.users ≡ some user)
        × (user.enabled ≡ true)
        × (user.mfa_enabled ≡ true)
        × (code_accepted hmac_sha1 now code user.mfa_secret ≡ true)
        × (u ≡ logged_in later user)
  unfolding complete_mfa_login
  complete_mfa_login-success now later token id code m u t h =
      mfa_login_on-success now later token id code m (get id m.users) u t h
