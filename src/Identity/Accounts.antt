-- ===== src/Identity/Accounts.antt =====
-- src/identity/users.rs: the accounts, the lock on failed logins, and the login. Argon2, the drawn
-- identifiers and the clock are arguments. What is written to the database returns nothing that the
-- manager reads, and is left out; `metadata` is always empty.
pub mod Profile
pub mod Capacity
pub mod Emails
pub mod Access
pub mod Login
pub mod Reach
pub mod Others
pub mod Lockout
mod Tests
use xira_net.Common.{
  ℕ, ◌+◌, ◌-◌, ◌%◌, Bool, true, false, not, ◌&&◌, Option, none, some, List, [], ◌∷◌, Dict, get,
  remove, insert, modify, retain_values, Text, codes, starts_with, trim, to_ascii_lowercase, length,
  Result, u64_max, add64, ltb, leb, if◌then◌else◌, is_some, ok, err, nat_eq, text_eq,
}
use mathlib.Core.Option
use xira_net.Identity.Roles.{UserRole}

pub record User : Type 0 where
  pub id : Text
  pub email : Text
  pub username : Text
  pub password_hash : Text
  pub role : UserRole
  pub permissions : List Text
  pub created_at : ℕ
  pub last_login : ℕ
  pub login_count : ℕ
  pub enabled : Bool
  pub mfa_enabled : Bool
  pub mfa_secret : Option Text

pub record FailedAttempt : Type 0 where
  pub count : ℕ
  pub first_failure_at : ℕ

pub record UserManager : Type 0 where
  pub users : Dict Text User
  pub email_index : Dict Text Text
  pub failed_attempts : Dict Text FailedAttempt

pub data AuthResult : Type 0 where
  success : User → Text → AuthResult
  invalid_credentials account_disabled : AuthResult
  mfa_required : Text → AuthResult
  locked_out : ℕ → AuthResult

abbrev pub new : UserManager
new = record { users = []; email_index = []; failed_attempts = [] }

unfoldable pub normalize_email : Text → Text
normalize_email email = to_ascii_lowercase (trim email)

-- `register`, with the id that is drawn, the hash of the password and the time.
abbrev pub new_user : Text → ℕ → Text → Text → Text → UserRole → User
new_user id now email username password_hash role = record {
  id = id;
  email = email;
  username = username;
  password_hash = password_hash;
  role = role;
  permissions = [];
  created_at = now;
  last_login = 0;
  login_count = 0;
  enabled = true;
  mfa_enabled = false;
  mfa_secret = none;
}

abbrev pub add_user : Text → User → UserManager → UserManager
add_user email_key user m = record m {
  email_index = insert email_key user.id m.email_index;
  users = insert user.id user m.users;
}

unfoldable pub register : User → UserManager → Result User Text × UserManager
register user m =
    if is_some (get (normalize_email user.email) m.email_index)
    then (err (codes "Email already registered"), m)
    else (ok user, add_user (normalize_email user.email) user m)

-- The loop over the stored users when the manager is made, on the rows as they were read: the email
-- goes into the index as it is written.
unfoldable pub load_from : List User → UserManager → UserManager
load_from [] m = m
load_from (user ∷ stored) m = load_from stored (add_user user.email user m)

unfoldable pub load : List User → UserManager
unfolding load_from
load stored = load_from stored new

abbrev pub max_failed_attempts : ℕ
max_failed_attempts = 10

abbrev pub lockout_window_secs : ℕ
lockout_window_secs = 900

abbrev pub failed_attempts_max_entries : ℕ
failed_attempts_max_entries = 10000

-- The answer of `lockout_check` on the entry that it reads, and whether it removes it. `now - first`
-- wraps around when the clock has gone back, and 900 less that difference wraps back.
unfoldable pub lockout_of : ℕ → Option FailedAttempt → Option ℕ × Bool
lockout_of now none = (none, false)
lockout_of now (some entry) =
    if ltb entry.count max_failed_attempts
    then (none, false)
    else if leb lockout_window_secs (now - entry.first_failure_at)
    then (none, true)
    else (some (lockout_window_secs + entry.first_failure_at - now), false)

abbrev pub remove_if : Bool → Text → Dict Text FailedAttempt → Dict Text FailedAttempt
remove_if b email f = if b then remove email f else f

unfoldable pub lockout_check : ℕ → Text → UserManager → Option ℕ × UserManager
unfolding lockout_of
lockout_check now email m =
    let r = lockout_of now (get email m.failed_attempts) in
    (r.0, record m { failed_attempts = remove_if r.1 email m.failed_attempts })

-- The loop over the entries for one that failed first; it starts from `u64::MAX`.
unfoldable pub oldest_from : Option Text → ℕ → Dict Text FailedAttempt → Option Text
oldest_from oldest_key oldest_ts [] = oldest_key
oldest_from oldest_key oldest_ts ((k, fa) ∷ f) =
    let older = oldest_from (some k) fa.first_failure_at f in
    let other = oldest_from oldest_key oldest_ts f in
    if ltb fa.first_failure_at oldest_ts then older else other

abbrev pub remove_key : Option Text → Dict Text FailedAttempt → Dict Text FailedAttempt
remove_key none f = f
remove_key (some k) f = remove k f

unfoldable pub drop_oldest : Dict Text FailedAttempt → Dict Text FailedAttempt
unfolding oldest_from
drop_oldest f =
    if leb failed_attempts_max_entries (length f)
    then remove_key (oldest_from none u64_max f) f
    else f

unfoldable pub prune : ℕ → Dict Text FailedAttempt → Dict Text FailedAttempt
unfolding drop_oldest
prune now f =
    if leb failed_attempts_max_entries (length f)
    then drop_oldest (retain_values (λ fa. leb (now - lockout_window_secs) fa.first_failure_at) f)
    else f

-- `entry(email).and_modify(…).or_insert_with(…)`; the counter is of 32 bits.
unfoldable pub count_failure : ℕ → Option FailedAttempt → FailedAttempt
count_failure now none = record { count = 1; first_failure_at = now }
count_failure now (some fa) = record fa { count = (fa.count + 1) % 4294967296 }

unfoldable pub record_failure : ℕ → Text → UserManager → UserManager
unfolding prune count_failure
record_failure now email m =
    let pruned = prune now m.failed_attempts in
    record m { failed_attempts = insert email (count_failure now (get email pruned)) pruned }

abbrev pub logged_in : ℕ → User → User
logged_in now user = record user { last_login = now; login_count = add64 user.login_count 1 }

abbrev and_then : {A B : Type 0} → Option A → (A → Option B) → Option B
and_then none f = none
and_then (some a) f = f a

-- The user that an email leads to, in the index and then in the map.
unfoldable pub user_of : Text → UserManager → Option User
user_of email_key m = and_then (get email_key m.email_index) (λ id. get id m.users)

module _ (argon2_verify : Text → Text → Bool) where
  unfoldable pub verify_password : Text → Text → Bool
  verify_password password stored =
      starts_with stored (codes "$argon2") && argon2_verify password stored

  -- The login after the lock was passed, on the user that was found.
  unfoldable pub login :
      ℕ → Text → Text → Text → UserManager → Option User → AuthResult × UserManager
  unfolding record_failure verify_password
  login now token email_key password m none = (invalid_credentials, record_failure now email_key m)
  login now token email_key password m (some user) =
      let unlocked = record m { failed_attempts = remove email_key m.failed_attempts } in
      if not user.enabled
      then (account_disabled, m)
      else if not (verify_password password user.password_hash)
      then (invalid_credentials, record_failure now email_key m)
      else if user.mfa_enabled
      then (mfa_required user.id, unlocked)
      else (
        success (logged_in now user) token,
        record unlocked { users = modify user.id (logged_in now) unlocked.users },
      )

  unfoldable pub after_lockout :
      ℕ → Text → Text → Text → Option ℕ × UserManager → AuthResult × UserManager
  unfolding login user_of
  after_lockout now token email_key password (some retry, m) = (locked_out retry, m)
  after_lockout now token email_key password (none, m) =
      login now token email_key password m (user_of email_key m)

  -- `authenticate`, with the clock read at the lock and again after it, and the token that is drawn.
  unfoldable pub authenticate : ℕ → ℕ → Text → Text → Text → UserManager → AuthResult × UserManager
  unfolding after_lockout lockout_check
  authenticate now later token email password m =
      after_lockout later token (normalize_email email) password
        (lockout_check now (normalize_email email) m)
