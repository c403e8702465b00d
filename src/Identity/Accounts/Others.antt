-- ===== src/Identity/Accounts/Others.antt =====
-- What a login on one email leaves alone: the failures and the credentials under another.
use xira_net.Common.{
  ℕ, ◌+◌, ◌≤◌, ◌<◌, ◌≡◌, refl, ap, ◌∙◌, inl, inr, Bool, false, Option, none, some, arith, Dict, get,
  remove, insert, modify, get-remove, get-insert_other, get-modify, length-remove-le, Text, ◌==◌,
  length, Bool-cases, nat_eq, text_eq,
}
use mathlib.Core.Option
use xira_net.Identity.Accounts.{
  User, UserManager, FailedAttempt, normalize_email, lockout_of, lockout_check, prune,
  count_failure, record_failure, and_then, user_of, logged_in, verify_password, login,
  after_lockout, authenticate,
}

-- The hash of a user's password, and whether the account is enabled.
abbrev pub credentials : Option User → Option (Text × Bool)
credentials none = none
credentials (some u) = some (u.password_hash, u.enabled)

-- The failures and the credentials under the key are as before, and the map of failures has at most `k` entries more.
abbrev pub IsLeft : ℕ → Text → UserManager → UserManager → Type 0
IsLeft k key m n =
    (get key n.failed_attempts ≡ get key m.failed_attempts)
    × (length n.failed_attempts ≤ length m.failed_attempts + k)
    × (credentials (user_of key n) ≡ credentials (user_of key m))

pub prune-room : (now : ℕ) (f : Dict Text FailedAttempt) → length f < 10000 → prune now f ≡ f
unfolding prune
prune-room now f h = ground (arith, h)

record_failure-IsLeft :
    (now : ℕ) (other key : Text) (m : UserManager)
    → (other == key) ≡ false
    → length m.failed_attempts < 10000
    → IsLeft 1 key m (record_failure now other m)
unfolding record_failure user_of insert
record_failure-IsLeft now other key m apart room = rw (prune-room now m.failed_attempts room) (
  get-insert_other other key (count_failure now (get other m.failed_attempts)) m.failed_attempts
      apart,
  omega (arith, length-remove-le other m.failed_attempts),
  refl,
)

remove-IsLeft :
    (other key : Text) (m : UserManager)
    → (other == key) ≡ false
    → IsLeft 0 key m (record m { failed_attempts = remove other m.failed_attempts })
unfolding user_of
remove-IsLeft other key m apart = (
  get-remove other key m.failed_attempts ∙ rw apart refl,
  omega (arith, length-remove-le other m.failed_attempts),
  refl,
)

credentials-logged_in :
    (now : ℕ) (o : Option User) → credentials (Option.map (logged_in now) o) ≡ credentials o
credentials-logged_in now none = refl
credentials-logged_in now (some u) = refl

credentials-modify :
    (now : ℕ) (id j : Text) (us : Dict Text User)
    → credentials (get j (modify id (logged_in now) us)) ≡ credentials (get j us)
credentials-modify now id j us = elim (Bool-cases (id == j)) [
  | inl same ↦
      ap credentials (get-modify id j (logged_in now) us ∙ rw same refl)
      ∙ credentials-logged_in now (get j us)
  | inr other ↦ ap credentials (get-modify id j (logged_in now) us ∙ rw other refl)
]

credentials-and_then :
    (now : ℕ) (id : Text) (o : Option Text) (us : Dict Text User)
    → credentials (and_then o (λ j. get j (modify id (logged_in now) us)))
      ≡ credentials (and_then o (λ j. get j us))
credentials-and_then now id none us = refl
credentials-and_then now id (some j) us = credentials-modify now id j us

module _ (argon2_verify : Text → Text → Bool) where
  login-IsLeft :
      (now : ℕ) (token other key password : Text) (m : UserManager) (o : Option User)
      → (other == key) ≡ false
      → length m.failed_attempts < 10000
      → IsLeft 1 key m (login argon2_verify now token other password m o).1
  unfolding login user_of
  login-IsLeft now token other key password m none apart room =
      record_failure-IsLeft now other key m apart room
  login-IsLeft now token other key password m (some u) apart room = elim (Bool-cases u.enabled) [
    | inr off ↦ rw off (refl, omega arith, refl)
    | inl on ↦ elim (Bool-cases (verify_password argon2_verify password u.password_hash)) [
      | inr wrong ↦ rw on (rw wrong (record_failure-IsLeft now other key m apart room))
      | inl right ↦
          let kept = remove-IsLeft other key m apart in
          elim (Bool-cases u.mfa_enabled) [
            | inl mfa ↦ rw on (rw right (rw mfa (kept.0, omega (arith, kept.1), refl)))
            | inr plain ↦ rw on (
                rw right (
                  rw plain (
                    kept.0,
                    omega (arith, kept.1),
                    credentials-and_then now u.id (get key m.email_index) m.users,
                  )))
          ]
    ]
  ]

  lockout_check-IsLeft :
      (now : ℕ) (other key : Text) (m : UserManager)
      → (other == key) ≡ false
      → IsLeft 0 key m (lockout_check now other m).1
  unfolding lockout_check user_of
  lockout_check-IsLeft now other key m apart =
      elim (Bool-cases (lockout_of now (get other m.failed_attempts)).1) [
        | inl b ↦ rw b (remove-IsLeft other key m apart)
        | inr b ↦ rw b (refl, omega arith, refl)
      ]

  after_lockout-IsLeft :
      (now : ℕ) (token other key password : Text) (p : Option ℕ × UserManager) (m : UserManager)
      → (other == key) ≡ false
      → length m.failed_attempts < 10000
      → IsLeft 0 key m p.1
      → IsLeft 1 key m (after_lockout argon2_verify now token other password p).1
  unfolding after_lockout
  after_lockout-IsLeft now token other key password (some retry, n) m apart room left =
      (left.0, omega (arith, left.1), left.2)
  after_lockout-IsLeft now token other key password (none, n) m apart room left =
      let r =
        login-IsLeft now token other key password n (user_of other n) apart
          (omega (arith, left.1, room)) in
      (r.0 ∙ left.0, omega (arith, r.1, left.1), r.2 ∙ left.2)

  pub authenticate-IsLeft :
      (now later : ℕ) (token email password key : Text) (m : UserManager)
      → (normalize_email email == key) ≡ false
      → length m.failed_attempts < 10000
      → IsLeft 1 key m (authenticate argon2_verify now later token email password m).1
  unfolding authenticate
  authenticate-IsLeft now later token email password key m apart room =
      after_lockout-IsLeft later token (normalize_email email) key password
        (lockout_check now (normalize_email email) m) m apart room
        (lockout_check-IsLeft now (normalize_email email) key m apart)
