-- ===== src/Identity/Mfa/Window.antt =====
-- The codes of a secret, and the steps at which they are taken.
use xira_net.Common.{
  ℕ, ◌+◌, ◌-◌, ◌/◌, ◌≤◌, ◌≡◌, sym, ap, ◌↔◌, ◌⊎◌, inl, inr, Bool, true, false, ◌||◌, Option, List,
  arith, Text, ◌==◌, list_eqb_iff, All, Bool-cases, nat_eq, text_eq,
}
use xira_net.Identity.Mfa.{generate_totp_code, any_step, verify_key, verify_totp, generate_secret}
use xira_net.Identity.Mfa.Base32.{IsByte, base32_decode-base32_encode}

-- A step that is the present one or beside it.
abbrev pub Near : ℕ → ℕ → Type 0
Near t step = (step ≤ t + 1) × (t ≤ step + 1)

Near-cases : (t step : ℕ) → Near t step → (t ≡ step) ⊎ ((t - 1 ≡ step) ⊎ (t + 1 ≡ step))
Near-cases t step h = ground arith

one_of : (a b c : Bool) → (a ≡ true) ⊎ ((b ≡ true) ⊎ (c ≡ true)) → (a || (b || (c || false))) ≡ true
one_of a b c h = ground (arith, h)

module _ (hmac_sha1 : List ℕ → List ℕ → Option (List ℕ)) where
  any_step-Near :
      (code : Text) (key : List ℕ) (t : ℕ)
      → any_step hmac_sha1 code key t ≡ true
      → (step : ℕ) × Near t step × (code ≡ generate_totp_code hmac_sha1 key step)
  unfolding any_step
  any_step-Near code key t h = elim (Bool-cases (generate_totp_code hmac_sha1 key t == code)) [
    | inl e ↦ (t, (omega arith, omega arith), sym ((list_eqb_iff _ _).0 e))
    | inr n ↦ elim (Bool-cases (generate_totp_code hmac_sha1 key (t - 1) == code)) [
      | inl e ↦ (t - 1, (omega arith, omega arith), sym ((list_eqb_iff _ _).0 e))
      | inr m ↦
          (t + 1, (omega arith, omega arith), sym ((list_eqb_iff _ _).0 (ground (arith, h, n, m))))
    ]
  ]

  hit :
      (key : List ℕ) (s step : ℕ)
      → s ≡ step
      → (generate_totp_code hmac_sha1 key s == generate_totp_code hmac_sha1 key step) ≡ true
  hit key s step e = (list_eqb_iff _ _).1 (ap (generate_totp_code hmac_sha1 key) e)

  Near-any_step :
      (key : List ℕ) (t step : ℕ)
      → Near t step
      → any_step hmac_sha1 (generate_totp_code hmac_sha1 key step) key t ≡ true
  unfolding any_step
  Near-any_step key t step h = one_of _ _ _ (elim (Near-cases t step h) [
    | inl e ↦ inl (hit key t step e)
    | inr o ↦
        inr (elim o [ inl e ↦ inl (hit key (t - 1) step e) | inr e ↦ inr (hit key (t + 1) step e) ])
  ])

  -- For a secret that was generated, a code is accepted just when it is that of the drawn bytes
  -- at the present step, the one before or the one after.
  pub verify_totp_iff :
      (now : ℕ) (drawn : List ℕ) (code : Text)
      → All IsByte drawn
      → (verify_totp hmac_sha1 now (generate_secret drawn) code ≡ true)
        ↔ ((step : ℕ) × Near (now / 30) step × (code ≡ generate_totp_code hmac_sha1 drawn step))
  unfolding verify_totp verify_key generate_secret
  verify_totp_iff now drawn code h =
      rw (base32_decode-base32_encode drawn h)
        (any_step-Near code drawn (now / 30), λ n. rw n.2 (Near-any_step drawn (now / 30) n.0 n.1))
