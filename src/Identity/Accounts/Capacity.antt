-- ===== src/Identity/Accounts/Capacity.antt =====
-- The map of failed logins never holds more than its cap, whatever emails are tried.
use xira_net.Common.{
  ℕ, ◌-◌, ◌≤◌, ◌<◌, ◌≡◌, refl, sym, subst, ◌⊎◌, inl, inr, Bool, true, false, Option, none, some, [],
  ◌∷◌, arith, Dict, get, remove, insert, length-remove-le, Holds, Holds-head, Holds-tail,
  length-remove-lt, All-remove, retain_values, Text, ◌==◌, length, All, u64_max, ltb, leb, lt→ltb,
  leb→le, Bool-cases, nat_eq, text_eq,
}
use xira_net.Identity.Accounts.{
  User, UserManager, FailedAttempt, normalize_email, lockout_of, lockout_check, remove_if,
  remove_key, oldest_from, drop_oldest, prune, count_failure, record_failure, user_of,
  verify_password, login, after_lockout, authenticate,
}

abbrev Failures : Type 0
Failures = Dict Text FailedAttempt

-- The time of an entry is below `u64::MAX`, from which the search for the oldest starts.
abbrev pub IsTimed : Text × FailedAttempt → Type 0
IsTimed (k, fa) = fa.first_failure_at < u64_max

abbrev pub WithinCap : Failures → Type 0
WithinCap f = (length f ≤ 10000) × All IsTimed f

-- The key found is the one that the search started from, or a key of the map.
oldest_from-Holds :
    (k : Text) (ts : ℕ) (f : Failures)
    → (j : Text) × (oldest_from (some k) ts f ≡ some j) × ((j ≡ k) ⊎ Holds j f)
unfolding oldest_from
oldest_from-Holds k ts [] = (k, refl, inl refl)
oldest_from-Holds k ts ((i, fa) ∷ f) = elim (Bool-cases (ltb fa.first_failure_at ts)) [
  | inl e ↦
      let r = oldest_from-Holds i fa.first_failure_at f in
      (
        r.0,
        rw e r.1,
        inr (elim r.2 [
          | inl s ↦ subst (λ x. Holds x ((i, fa) ∷ f)) (sym s) (Holds-head i fa f)
          | inr h ↦ Holds-tail r.0 i fa f h
        ]),
      )
  | inr n ↦
      let r = oldest_from-Holds k ts f in
      (r.0, rw n r.1, elim r.2 [ inl s ↦ inl s | inr h ↦ inr (Holds-tail r.0 i fa f h) ])
]

oldest-found :
    (f : Failures)
    → 0 < length f
    → All IsTimed f
    → (j : Text) × (oldest_from none u64_max f ≡ some j) × Holds j f
unfolding oldest_from
oldest-found [] h t = absurd (omega (arith, h))
oldest-found ((i, fa) ∷ f) h t =
    let r = oldest_from-Holds i fa.first_failure_at f in
    (
      r.0,
      rw (lt→ltb fa.first_failure_at u64_max t.0) r.1,
      elim r.2 [
        | inl s ↦ subst (λ x. Holds x ((i, fa) ∷ f)) (sym s) (Holds-head i fa f)
        | inr g ↦ Holds-tail r.0 i fa f g
      ],
    )

drop_oldest-length :
    (f : Failures) → length f ≤ 10000 → All IsTimed f → length (drop_oldest f) < 10000
unfolding drop_oldest
drop_oldest-length f h t = elim (Bool-cases (leb 10000 (length f))) [
  | inl full ↦
      let r = oldest-found f (omega (arith, leb→le 10000 (length f) full)) t in
      rw full (rw r.1 (omega (arith, h, length-remove-lt r.0 f r.2)))
  | inr room ↦ rw room (ground (arith, room))
]

All-retain_values :
    (p : FailedAttempt → Bool) (f : Failures) → All IsTimed f → All IsTimed (retain_values p f)
unfolding retain_values
All-retain_values p [] t = tt
All-retain_values p ((k, fa) ∷ f) t = elim (Bool-cases (p fa)) [
  | inl e ↦ rw e (t.0, All-retain_values p f t.1)
  | inr n ↦ rw n (All-retain_values p f t.1)
]

length-retain_values-le :
    (p : FailedAttempt → Bool) (f : Failures) → length (retain_values p f) ≤ length f
unfolding retain_values
length-retain_values-le p [] = omega arith
length-retain_values-le p ((k, fa) ∷ f) = ground (arith, length-retain_values-le p f)

All-drop_oldest : (f : Failures) → All IsTimed f → All IsTimed (drop_oldest f)
unfolding drop_oldest
All-drop_oldest f t = elim (Bool-cases (leb 10000 (length f))) [
  | inl full ↦ rw full (All-remove_key (oldest_from none u64_max f))
  | inr room ↦ rw room t
]
  where
    All-remove_key : (o : Option Text) → All IsTimed (remove_key o f)
    All-remove_key none = t
    All-remove_key (some k) = All-remove IsTimed k f t

prune-WithinCap :
    (now : ℕ) (f : Failures)
    → WithinCap f
    → (length (prune now f) < 10000) × All IsTimed (prune now f)
unfolding prune
prune-WithinCap now f h = elim (Bool-cases (leb 10000 (length f))) [
  | inl full ↦
      let p = λ (fa : FailedAttempt). leb (now - 900) fa.first_failure_at in
      let kept = retain_values p f in
      let t = All-retain_values p f h.1 in
      rw full (
        drop_oldest-length kept (omega (arith, h.0, length-retain_values-le p f)) t,
        All-drop_oldest kept t,
      )
  | inr room ↦ rw room (ground (arith, room), h.1)
]

count_failure-timed :
    (now : ℕ) (k : Text) (f : Failures)
    → now < u64_max
    → All IsTimed f
    → (count_failure now (get k f)).first_failure_at < u64_max
unfolding get count_failure
count_failure-timed now k [] h t = h
count_failure-timed now k ((j, fa) ∷ f) h t = elim (Bool-cases (j == k)) [
  | inl e ↦ rw e t.0
  | inr n ↦ rw n (count_failure-timed now k f h t.1)
]

record_failure-WithinCap :
    (now : ℕ) (key : Text) (m : UserManager)
    → now < u64_max
    → WithinCap m.failed_attempts
    → WithinCap (record_failure now key m).failed_attempts
unfolding record_failure insert
record_failure-WithinCap now key m h w =
    let p = prune-WithinCap now m.failed_attempts w in
    let f = prune now m.failed_attempts in
    (
      omega (arith, p.0, length-remove-le key f),
      (count_failure-timed now key f h p.1, All-remove IsTimed key f p.1),
    )

remove-WithinCap : (key : Text) (f : Failures) → WithinCap f → WithinCap (remove key f)
remove-WithinCap key f w =
    (omega (arith, w.0, length-remove-le key f), All-remove IsTimed key f w.1)

remove_if-WithinCap :
    (b : Bool) (key : Text) (f : Failures) → WithinCap f → WithinCap (remove_if b key f)
remove_if-WithinCap true key f w = remove-WithinCap key f w
remove_if-WithinCap false key f w = w

module _ (argon2_verify : Text → Text → Bool) where
  login-WithinCap :
      (now : ℕ) (token key password : Text) (m : UserManager) (o : Option User)
      → now < u64_max
      → WithinCap m.failed_attempts
      → WithinCap (login argon2_verify now token key password m o).1.failed_attempts
  unfolding login
  login-WithinCap now token key password m none h w = record_failure-WithinCap now key m h w
  login-WithinCap now token key password m (some u) h w = elim (Bool-cases u.enabled) [
    | inr off ↦ rw off w
    | inl on ↦ elim (Bool-cases (verify_password argon2_verify password u.password_hash)) [
      | inr wrong ↦ rw on (rw wrong (record_failure-WithinCap now key m h w))
      | inl right ↦ elim (Bool-cases u.mfa_enabled) [
        | inl mfa ↦ rw on (rw right (rw mfa (remove-WithinCap key m.failed_attempts w)))
        | inr plain ↦ rw on (rw right (rw plain (remove-WithinCap key m.failed_attempts w)))
      ]
    ]
  ]

  after_lockout-WithinCap :
      (now : ℕ) (token key password : Text) (p : Option ℕ × UserManager)
      → now < u64_max
      → WithinCap p.1.failed_attempts
      → WithinCap (after_lockout argon2_verify now token key password p).1.failed_attempts
  unfolding after_lockout
  after_lockout-WithinCap now token key password (none, m) h w =
      login-WithinCap now token key password m (user_of key m) h w
  after_lockout-WithinCap now token key password (some r, m) h w = w

  -- A login keeps the map of failures within 10,000 entries and their times below the greatest
  -- number of 64 bits, if the clock is below it.
  pub authenticate-WithinCap :
      (now later : ℕ) (token email password : Text) (m : UserManager)
      → later < u64_max
      → WithinCap m.failed_attempts
      → WithinCap (authenticate argon2_verify now later token email password m).1.failed_attempts
  unfolding authenticate lockout_check
  authenticate-WithinCap now later token email password m h w =
      let key = normalize_email email in
      after_lockout-WithinCap later token key password (lockout_check now key m) h
        (remove_if-WithinCap (lockout_of now (get key m.failed_attempts)).1 key m.failed_attempts w)
