-- ===== src/Identity/Accounts/Lockout.antt =====
-- The lock against guessing: how many wrong passwords a window lets through, and how many entries are kept.
use xira_net.Common.{
  ℕ, ◌+◌, ◌-◌, ◌≤◌, ◌<◌, ◌≡◌, refl, sym, ap, ◌∙◌, subst, inl, inr, Bool, true, false, Option, none,
  some, List, [], ◌∷◌, arith, get, insert, get-insert_self, length-remove-le, Text, ◌==◌, ==_iff,
  length, All, ltb, if◌then◌else◌, ltb→lt, Bool-cases, nat_eq, text_eq,
}
use xira_net.Identity.Accounts.{
  User, UserManager, FailedAttempt, AuthResult, invalid_credentials, locked_out, normalize_email,
  lockout_of, lockout_check, count_failure, record_failure, user_of, verify_password, login,
  authenticate,
}
use xira_net.Identity.Accounts.Others.{credentials, prune-room, authenticate-IsLeft}
use xira_net.Identity.Accounts.Login.{authenticate-unlocked, authenticate-locked}

-- A login that is tried: the two readings of the clock, the email and the password.
pub record Attempt : Type 0 where
  pub now : ℕ
  pub later : ℕ
  pub token : Text
  pub email : Text
  pub password : Text

-- A login that passes the lock tests the password against the hash of the user that is found.
abbrev passes_lock : AuthResult → ℕ
passes_lock (locked_out retry) = 0
passes_lock r = 1

-- Both readings of the clock are less than a window after `t`.
abbrev pub InWindow : ℕ → Attempt → Type 0
InWindow t a = (t ≤ a.now) × (a.now < t + 900) × (t ≤ a.later)

-- What the map holds on an email after `c` failures since `t`.
abbrev Failed : ℕ → ℕ → Option FailedAttempt → Type 0
Failed t c none = c ≡ 0
Failed t c (some fa) = (fa.count ≡ c) × (t ≤ fa.first_failure_at)

ten : (c : ℕ) → c ≤ 10 → ltb c 10 ≡ false → c ≡ 10
ten c le h = ground (arith, le, h)

count_failure-Failed :
    (later t c : ℕ) (o : Option FailedAttempt)
    → Failed t c o
    → c < 10
    → t ≤ later
    → Failed t (c + 1) (some (count_failure later o))
unfolding count_failure
count_failure-Failed later t c none f h hl = ground (arith, f)
count_failure-Failed later t c (some fa) f h hl = (omega (arith, f.0), f.1)

module _ (argon2_verify : Text → Text → Bool) where
  try : Attempt → UserManager → AuthResult × UserManager
  try a m = authenticate argon2_verify a.now a.later a.token a.email a.password m

  -- How many passwords a run of logins tests on the email of a key.
  pub guesses : Text → List Attempt → UserManager → ℕ
  guesses key [] m = 0
  guesses key (a ∷ rest) m =
      (if normalize_email a.email == key then passes_lock (try a m).0 else 0)
      + guesses key rest (try a m).1

  -- A login on the email (`true`) is in the window, and the account, if there is one, is enabled
  -- and has another password; a login on another email is any.
  abbrev pub IsGuess : ℕ → Bool → Option (Text × Bool) → Attempt → Type 0
  IsGuess t false o a = Unit
  IsGuess t true none a = InWindow t a
  IsGuess t true (some (hash, enabled)) a =
      InWindow t a × (enabled ≡ true) × (verify_password argon2_verify a.password hash ≡ false)

  IsGuess-InWindow :
      (t : ℕ) (o : Option (Text × Bool)) (a : Attempt) → IsGuess t true o a → InWindow t a
  IsGuess-InWindow t none a h = h
  IsGuess-InWindow t (some c) a h = h.0

  below-unlocked :
      (now t c : ℕ) (o : Option FailedAttempt)
      → Failed t c o
      → c < 10
      → lockout_of now o ≡ (none, false)
  unfolding lockout_of
  below-unlocked now t c none f h = refl
  below-unlocked now t c (some fa) f h = ground (arith, f, h)

  at-locked :
      (now t : ℕ) (o : Option FailedAttempt)
      → Failed t 10 o
      → now < t + 900
      → (retry : ℕ) × ((lockout_of now o).0 ≡ some retry)
  unfolding lockout_of
  at-locked now t none f h = ground (arith, f)
  at-locked now t (some fa) f h = (900 + fa.first_failure_at - now, ground (arith, f, h))

  wrong-login :
      (t : ℕ) (key : Text) (a : Attempt) (m : UserManager) (o : Option User)
      → IsGuess t true (credentials o) a
      → login argon2_verify a.later a.token key a.password m o
        ≡ (invalid_credentials, record_failure a.later key m)
  unfolding login
  wrong-login t key a m none w = refl
  wrong-login t key a m (some u) w = rw w.1 (rw w.2 refl)

  unlocked-kept :
      (now : ℕ) (key : Text) (m : UserManager)
      → lockout_of now (get key m.failed_attempts) ≡ (none, false)
      → (lockout_check now key m).1 ≡ m
  unfolding lockout_check
  unlocked-kept now key m e = rw e refl

  record_failure-Failed :
      (later t c : ℕ) (key : Text) (m : UserManager)
      → Failed t c (get key m.failed_attempts)
      → c < 10
      → t ≤ later
      → length m.failed_attempts < 10000
      → Failed t (c + 1) (get key (record_failure later key m).failed_attempts)
        × (length (record_failure later key m).failed_attempts ≤ length m.failed_attempts + 1)
  unfolding record_failure insert
  record_failure-Failed later t c key m f h hl room = rw (prune-room later m.failed_attempts room) (
    rw (get-insert_self key (count_failure later (get key m.failed_attempts)) m.failed_attempts)
        (count_failure-Failed later t c (get key m.failed_attempts) f h hl),
    omega (arith, length-remove-le key m.failed_attempts),
  )

  through :
      (t c : ℕ) (a : Attempt) (m : UserManager)
      → Failed t c (get (normalize_email a.email) m.failed_attempts)
      → c < 10
      → try a m
        ≡ login argon2_verify a.later a.token
            (normalize_email a.email)
            a.password
            m
            (user_of (normalize_email a.email) m)
  unfolding try
  through t c a m f below =
      let key = normalize_email a.email in
      let open_lock = below-unlocked a.now t c (get key m.failed_attempts) f below in
      authenticate-unlocked argon2_verify a.now a.later a.token a.email a.password m
        (ap (λ p. p.0) open_lock)
      ∙ ap (λ n. login argon2_verify a.later a.token key a.password n (user_of key m))
          (unlocked-kept a.now key m open_lock)

  -- One wrong password below the limit is tested, and counts as a failure.
  try-below :
      (t c : ℕ) (key : Text) (a : Attempt) (m : UserManager)
      → normalize_email a.email ≡ key
      → IsGuess t true (credentials (user_of key m)) a
      → Failed t c (get key m.failed_attempts)
      → c < 10
      → try a m ≡ (invalid_credentials, record_failure a.later key m)
  try-below t c key a m e w f below =
      through t c a m (subst (λ k. Failed t c (get k m.failed_attempts)) (sym e) f) below
      ∙ ap (λ k. login argon2_verify a.later a.token k a.password m (user_of k m)) e
      ∙ wrong-login t key a m (user_of key m) w

  -- After ten failures the lock holds, and nothing changes.
  try-locked :
      (t : ℕ) (key : Text) (a : Attempt) (m : UserManager)
      → normalize_email a.email ≡ key
      → InWindow t a
      → Failed t 10 (get key m.failed_attempts)
      → (retry : ℕ) × (try a m ≡ (locked_out retry, m))
  unfolding try
  try-locked t key a m e w f =
      let r =
        at-locked a.now t (get (normalize_email a.email) m.failed_attempts)
          (subst (λ k. Failed t 10 (get k m.failed_attempts)) (sym e) f) w.1 in
      (r.0, authenticate-locked argon2_verify a.now a.later a.token a.email a.password m r.0 r.1)

  guesses-step :
      (key : Text) (a : Attempt) (rest : List Attempt) (m n : UserManager) (r : AuthResult)
      → (normalize_email a.email == key) ≡ true
      → try a m ≡ (r, n)
      → guesses key (a ∷ rest) m ≡ passes_lock r + guesses key rest n
  unfolding guesses
  guesses-step key a rest m n r e h =
      ap (λ b. (if b then passes_lock (try a m).0 else 0) + guesses key rest (try a m).1) e
      ∙ ap (λ p. passes_lock p.0 + guesses key rest p.1) h

  guesses-other :
      (key : Text) (a : Attempt) (rest : List Attempt) (m : UserManager)
      → (normalize_email a.email == key) ≡ false
      → guesses key (a ∷ rest) m ≡ 0 + guesses key rest (try a m).1
  unfolding guesses
  guesses-other key a rest m e =
      ap (λ b. (if b then passes_lock (try a m).0 else 0) + guesses key rest (try a m).1) e

  guesses_from :
      (t c : ℕ) (key : Text) (tries : List Attempt) (o : Option (Text × Bool)) (m : UserManager)
      → All (λ a. IsGuess t (normalize_email a.email == key) o a) tries
      → credentials (user_of key m) ≡ o
      → Failed t c (get key m.failed_attempts)
      → c ≤ 10
      → length m.failed_attempts + length tries ≤ 10000
      → guesses key tries m + c ≤ 10
  unfolding guesses record_failure user_of try
  guesses_from t c key [] o m h e f le room = omega (arith, le)
  guesses_from t c key (a ∷ rest) o m h e f le room =
      elim (Bool-cases (normalize_email a.email == key)) [
        | inr other ↦
            let left =
              authenticate-IsLeft argon2_verify a.now a.later a.token a.email a.password key m other
                (omega (arith, room)) in
            omega (
              arith,
              guesses-other key a rest m other,
              guesses_from t c key rest o (try a m).1 h.1 (left.2 ∙ e)
                  (subst (Failed t c) (sym left.0) f) le (omega (arith, left.1, room)),
            )
        | inl same ↦
            let w = subst (λ b. IsGuess t b o a) same h.0 in
            let key_of = (==_iff (normalize_email a.email) key).0 same in
            elim (Bool-cases (ltb c 10)) [
              | inl below ↦
                  let d =
                    try-below t c key a m key_of (subst (λ x. IsGuess t true x a) (sym e) w) f
                      (ltb→lt c 10 below) in
                  let n = record_failure a.later key m in
                  let g =
                    record_failure-Failed a.later t c key m f (ltb→lt c 10 below)
                      (IsGuess-InWindow t o a w).2 (omega (arith, room)) in
                  omega (
                    arith,
                    guesses-step key a rest m n invalid_credentials same d,
                    guesses_from t (c + 1) key rest o n h.1 e g.0 (omega (arith, ltb→lt c 10 below))
                        (omega (arith, g.1, room)),
                  )
              | inr above ↦
                  let full =
                    subst (λ k. Failed t k (get key m.failed_attempts)) (ten c le above) f in
                  let r = try-locked t key a m key_of (IsGuess-InWindow t o a w) full in
                  omega (
                    arith,
                    guesses-step key a rest m m (locked_out r.0) same r.1,
                    guesses_from t c key rest o m h.1 e f le (omega (arith, room)),
                  )
            ]
      ]

  -- Among any logins on any emails, those on one email, all within 15 minutes and with wrong
  -- passwords of an account that, if there is one, is enabled, get at most ten passwords
  -- tested, if the email has no failure on record before and the map of failures has room for
  -- all the logins.
  pub guesses_bound :
      (t : ℕ) (key : Text) (tries : List Attempt) (m : UserManager)
      → All (λ a. IsGuess t (normalize_email a.email == key) (credentials (user_of key m)) a) tries
      → get key m.failed_attempts ≡ none
      → length m.failed_attempts + length tries ≤ 10000
      → guesses key tries m ≤ 10
  guesses_bound t key tries m h e room = omega (
    arith,
    guesses_from t 0 key tries (credentials (user_of key m)) m h refl
        (subst (Failed t 0) (sym e) refl) (omega arith) room,
  )
