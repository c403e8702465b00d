-- ===== src/Identity/Accounts/Reach.antt =====
-- The states of the account manager, step by step, and what holds in all of them.
use xira_net.Common.{
  ℕ, ◌≡◌, refl, sym, ap, ◌∙◌, inl, inr, Bool, Option, none, some, List, get, remove, Text,
  Bool-cases, is_some, some_inj, nat_eq, text_eq,
}
use xira_net.Identity.Roles.{UserRole}
use xira_net.Identity.Accounts.{
  User, UserManager, new, load, normalize_email, register, lockout_check, record_failure, user_of,
  logged_in, verify_password, login, after_lockout, authenticate,
}
use xira_net.Identity.Accounts.Profile.{
  start_mfa_enrollment, verify_mfa_setup, setup_on, code_accepted, complete_mfa_login, mfa_login_on,
  disable_mfa, disable_user, update_role, add_permission,
}
use xira_net.Identity.Accounts.Emails.{
  Inv, new-Inv, with_user-Inv, if_found-Inv, register-Inv, AreStored, load-Inv,
}

-- Only the users and the index count.
retried-Inv : (f m : UserManager) → Inv m → Inv (record m { failed_attempts = f.failed_attempts })
retried-Inv f m inv = record { indexed = inv.indexed; listed = inv.listed }

module _ (argon2_verify : Text → Text → Bool) (hmac_sha1 : List ℕ → List ℕ → Option (List ℕ)) where
  pub data Reach : UserManager → Type 0 where
    starts : Reach new
    loads : (stored : List User) → AreStored stored → Reach (load stored)
    registers :
        (user : User) (m : UserManager)
        → get user.id m.users ≡ none
        → Reach m
        → Reach (register user m).1
    authenticates :
        (now later : ℕ) (token email password : Text) (m : UserManager)
        → Reach m
        → Reach (authenticate argon2_verify now later token email password m).1
    enrolls :
        (drawn : List ℕ) (id : Text) (m : UserManager)
        → Reach m
        → Reach (start_mfa_enrollment drawn id m).1
    sets_up :
        (now : ℕ) (id code : Text) (m : UserManager)
        → Reach m
        → Reach (verify_mfa_setup hmac_sha1 now id code m).1
    completes :
        (now later : ℕ) (token id code : Text) (m : UserManager)
        → Reach m
        → Reach (complete_mfa_login hmac_sha1 now later token id code m).1
    drops_mfa : (id : Text) (m : UserManager) → Reach m → Reach (disable_mfa id m).1
    disables : (id : Text) (m : UserManager) → Reach m → Reach (disable_user id m).1
    changes_role :
        (id : Text) (role : UserRole) (m : UserManager) → Reach m → Reach (update_role id role m).1
    grants :
        (id permission : Text) (m : UserManager)
        → Reach m
        → Reach (add_permission id permission m).1

  login-Inv :
      (now : ℕ) (token key password : Text) (m : UserManager) (o : Option User)
      → Inv m
      → Inv (login argon2_verify now token key password m o).1
  unfolding login record_failure
  login-Inv now token key password m none inv = retried-Inv (record_failure now key m) m inv
  login-Inv now token key password m (some u) inv = elim (Bool-cases u.enabled) [
    | inr off ↦ rw off inv
    | inl on ↦ elim (Bool-cases (verify_password argon2_verify password u.password_hash)) [
      | inr wrong ↦ rw on (rw wrong (retried-Inv (record_failure now key m) m inv))
      | inl right ↦
          let unlocked =
            retried-Inv (record m { failed_attempts = remove key m.failed_attempts }) m inv in
          elim (Bool-cases u.mfa_enabled) [
            | inl mfa ↦ rw on (rw right (rw mfa unlocked))
            | inr plain ↦ rw on (
                rw right
                  (rw plain (with_user-Inv u.id (logged_in now) _ (λ v. (refl, refl)) unlocked)))
          ]
    ]
  ]

  after_lockout-Inv :
      (now : ℕ) (token key password : Text) (p : Option ℕ × UserManager)
      → Inv p.1
      → Inv (after_lockout argon2_verify now token key password p).1
  unfolding after_lockout
  after_lockout-Inv now token key password (none, m) inv =
      login-Inv now token key password m (user_of key m) inv
  after_lockout-Inv now token key password (some r, m) inv = inv

  authenticate-Inv :
      (now later : ℕ) (token email password : Text) (m : UserManager)
      → Inv m
      → Inv (authenticate argon2_verify now later token email password m).1
  unfolding authenticate lockout_check
  authenticate-Inv now later token email password m inv =
      after_lockout-Inv later token (normalize_email email) password
        (lockout_check now (normalize_email email) m)
        (retried-Inv (lockout_check now (normalize_email email) m).1 m inv)

  setup_on-Inv :
      (now : ℕ) (id code : Text) (m : UserManager) (o : Option User)
      → Inv m
      → Inv (setup_on hmac_sha1 now id code m o).1
  unfolding setup_on
  setup_on-Inv now id code m none inv = inv
  setup_on-Inv now id code m (some u) inv =
      elim (Bool-cases (code_accepted hmac_sha1 now code u.mfa_secret)) [
        | inl e ↦ rw e (with_user-Inv id _ m (λ v. (refl, refl)) inv)
        | inr n ↦ rw n inv
      ]

  mfa_login_on-Inv :
      (now later : ℕ) (token id code : Text) (m : UserManager) (o : Option User)
      → Inv m
      → Inv (mfa_login_on hmac_sha1 now later token id code m o).1
  unfolding mfa_login_on
  mfa_login_on-Inv now later token id code m none inv = inv
  mfa_login_on-Inv now later token id code m (some u) inv = elim (Bool-cases u.enabled) [
    | inr off ↦ rw off inv
    | inl on ↦ elim (Bool-cases u.mfa_enabled) [
      | inr plain ↦ rw on (rw plain inv)
      | inl mfa ↦ elim (Bool-cases (code_accepted hmac_sha1 now code u.mfa_secret)) [
        | inl e ↦
            rw on (rw mfa (rw e (with_user-Inv id (logged_in later) m (λ v. (refl, refl)) inv)))
        | inr n ↦ rw on (rw mfa (rw n inv))
      ]
    ]
  ]

  enroll-Inv :
      (drawn : List ℕ) (id : Text) (m : UserManager)
      → Inv m
      → Inv (start_mfa_enrollment drawn id m).1
  unfolding start_mfa_enrollment
  enroll-Inv drawn id m inv = elim (Bool-cases (is_some (get id m.users))) [
    | inl e ↦ rw e (with_user-Inv id _ m (λ v. (refl, refl)) inv)
    | inr n ↦ rw n inv
  ]

  pub Reach-Inv : (m : UserManager) → Reach m → Inv m
  unfolding verify_mfa_setup complete_mfa_login disable_mfa disable_user update_role add_permission
  Reach-Inv _ starts = new-Inv
  Reach-Inv _ (loads stored h) = load-Inv stored h
  Reach-Inv _ (registers user m fresh r) = register-Inv user m fresh (Reach-Inv m r)
  Reach-Inv _ (authenticates now later token email password m r) =
      authenticate-Inv now later token email password m (Reach-Inv m r)
  Reach-Inv _ (enrolls drawn id m r) = enroll-Inv drawn id m (Reach-Inv m r)
  Reach-Inv _ (sets_up now id code m r) =
      setup_on-Inv now id code m (get id m.users) (Reach-Inv m r)
  Reach-Inv _ (completes now later token id code m r) =
      mfa_login_on-Inv now later token id code m (get id m.users) (Reach-Inv m r)
  Reach-Inv _ (drops_mfa id m r) = if_found-Inv id _ m (λ v. (refl, refl)) (Reach-Inv m r)
  Reach-Inv _ (disables id m r) = if_found-Inv id _ m (λ v. (refl, refl)) (Reach-Inv m r)
  Reach-Inv _ (changes_role id role m r) = if_found-Inv id _ m (λ v. (refl, refl)) (Reach-Inv m r)
  Reach-Inv _ (grants id permission m r) = if_found-Inv id _ m (λ v. (refl, refl)) (Reach-Inv m r)

  -- In every state that is reached, with ids drawn afresh, from an empty manager or from stored
  -- users whose ids and emails differ and whose emails are all written in their normal form,
  -- two users whose emails normalise to one are one user.
  pub Reach-one_account :
      (m : UserManager) (i j : Text) (u v : User)
      → Reach m
      → get i m.users ≡ some u
      → get j m.users ≡ some v
      → normalize_email u.email ≡ normalize_email v.email
      → i ≡ j
  Reach-one_account m i j u v r hu hv e =
      let inv = Reach-Inv m r in
      some_inj (sym (inv.listed i u hu).0 ∙ ap (λ k. get k m.email_index) e ∙ (inv.listed j v hv).0)
