-- ===== src/Identity/Accounts/Tests.antt =====
-- Runs of the account manager, and its theorems at concrete accounts.
use xira_net.Common.{
  ℕ, ◌+◌, ◌≤◌, ◌≡◌, refl, Bool, true, false, Option, none, some, List, [], ◌∷◌, ◌++◌, arith, get,
  insert, Text, codes, strip_prefix, starts_with, trim, to_ascii_lowercase, ◌==◌, length, All, ok,
  nat_eq, text_eq,
}
use xira_net.Identity.Roles.{viewer}
use xira_net.Identity.Accounts.{
  User, UserManager, success, new, new_user, register, load, normalize_email, authenticate,
  verify_password, user_of, lockout_of, logged_in,
}
use xira_net.Identity.Accounts.Login.{IsUnlocked, LetsIn, authenticate-success}
use xira_net.Identity.Accounts.Lockout.{Attempt, IsGuess, guesses, guesses_bound}
use xira_net.Identity.Accounts.Others.{credentials}
use xira_net.Identity.Accounts.Capacity.{WithinCap, authenticate-WithinCap}
use xira_net.Identity.Accounts.Reach.{loads, registers, Reach-one_account}
use xira_net.Identity.Accounts.Emails.{AreStored}
use xira_net.Identity.Accounts.Access.{authenticate-register}

-- A toy hash: the password behind the prefix.
abbrev toy_verify : Text → Text → Bool
toy_verify password stored = stored == codes "$argon2" ++ password

abbrev toy_mac : List ℕ → List ℕ → Option (List ℕ)
toy_mac key message = none

abbrev ann : User
ann = new_user (codes "u1") 7 (codes "Ann@x.org") (codes "ann") (codes "$argon2pw") viewer

abbrev with_ann : UserManager
with_ann = (register ann new).1

registered : (register ann new).0 ≡ ok ann
unfolding register get normalize_email trim to_ascii_lowercase
registered = refl

right_password : verify_password toy_verify (codes "pw") (codes "$argon2pw") ≡ true
unfolding verify_password starts_with strip_prefix
right_password = refl

wrong_password : verify_password toy_verify (codes "no") (codes "$argon2pw") ≡ false
unfolding verify_password starts_with strip_prefix
wrong_password = refl

spelt_alike : normalize_email (codes " ANN@X.org") ≡ normalize_email (codes "Ann@x.org")
unfolding normalize_email trim to_ascii_lowercase
spelt_alike = refl

unlocked : IsUnlocked 9 (normalize_email (codes " ANN@X.org")) with_ann
unfolding lockout_of register get normalize_email trim to_ascii_lowercase
unlocked = refl

authenticate-register_example :
    (authenticate toy_verify 9 10 (codes "tok") (codes " ANN@X.org") (codes "pw") with_ann).0
    ≡ success (logged_in 10 ann) (codes "tok")
authenticate-register_example =
    authenticate-register toy_verify (codes "u1") (codes "ann") (codes "$argon2pw") (codes "pw")
      (codes "Ann@x.org") (codes " ANN@X.org") (codes "tok") viewer 7 9 10 new ann registered
      spelt_alike right_password unlocked

authenticate-success_example :
    IsUnlocked 9 (normalize_email (codes " ANN@X.org")) with_ann
    × ((user : User) × LetsIn toy_verify
          (normalize_email (codes " ANN@X.org"))
          (codes "pw")
          with_ann
          user
        × (logged_in 10 ann ≡ logged_in 10 user))
authenticate-success_example =
    authenticate-success toy_verify 9 10 (codes "tok") (codes " ANN@X.org") (codes "pw") with_ann
      (logged_in 10 ann) (codes "tok")
      (authenticate-register toy_verify (codes "u1") (codes "ann") (codes "$argon2pw") (codes "pw")
        (codes "Ann@x.org") (codes " ANN@X.org") (codes "tok") viewer 7 9 10 new ann registered
        spelt_alike right_password unlocked)

abbrev guess : Attempt
guess = record {
  now = 20;
  later = 21;
  token = [];
  email = codes "Ann@x.org";
  password = codes "no";
}

abbrev elsewhere : Attempt
elsewhere = record {
  now = 22;
  later = 23;
  token = [];
  email = codes "bob@x.org";
  password = codes "pw";
}

abbrev ann_key : Text
ann_key = codes "ann@x.org"

guesses_wrong :
    All
      (λ a.
        IsGuess toy_verify 20
          (normalize_email a.email == ann_key)
          (credentials (user_of ann_key with_ann))
          a)
      (guess ∷ elsewhere ∷ guess ∷ [])
unfolding user_of register get insert normalize_email trim to_ascii_lowercase verify_password
    starts_with strip_prefix
guesses_wrong = (
  ((omega arith, omega arith, omega arith), refl, refl),
  (tt, (((omega arith, omega arith, omega arith), refl, refl), tt)),
)

no_failure : get ann_key with_ann.failed_attempts ≡ none
unfolding register get normalize_email trim to_ascii_lowercase
no_failure = refl

few_failures : length with_ann.failed_attempts + 3 ≤ 10000
unfolding register get normalize_email trim to_ascii_lowercase
few_failures = omega arith

guesses_bound_example : guesses toy_verify ann_key (guess ∷ elsewhere ∷ guess ∷ []) with_ann ≤ 10
guesses_bound_example =
    guesses_bound toy_verify 20 ann_key (guess ∷ elsewhere ∷ guess ∷ []) with_ann guesses_wrong
      no_failure few_failures

empty_cap : WithinCap with_ann.failed_attempts
unfolding register get normalize_email trim to_ascii_lowercase
empty_cap = (omega arith, tt)

authenticate-WithinCap_example :
    WithinCap
      (authenticate toy_verify 20 21 [] (codes "nobody") (codes "no") with_ann).1.failed_attempts
authenticate-WithinCap_example =
    authenticate-WithinCap toy_verify 20 21 [] (codes "nobody") (codes "no") with_ann (omega arith)
      empty_cap

abbrev bob : User
bob = new_user (codes "u0") 5 (codes "bob@x.org") (codes "bob") (codes "$argon2pw") viewer

bob_stored : AreStored (bob ∷ [])
unfolding normalize_email trim to_ascii_lowercase
bob_stored = (refl, tt, tt)

abbrev with_both : UserManager
with_both = (register ann (load (bob ∷ []))).1

no_user : get (codes "u1") (load (bob ∷ [])).users ≡ none
unfolding get load insert
no_user = refl

ann_listed : get (codes "u1") with_both.users ≡ some ann
unfolding register load get insert normalize_email trim to_ascii_lowercase
ann_listed = refl

Reach-one_account_example : codes "u1" ≡ codes "u1"
Reach-one_account_example =
    Reach-one_account toy_verify toy_mac with_both (codes "u1") (codes "u1") ann ann
      (registers ann (load (bob ∷ [])) no_user (loads (bob ∷ []) bob_stored)) ann_listed ann_listed
      refl
