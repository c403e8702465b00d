-- ===== src/Identity/Mfa/Tests.antt =====
-- Runs of the base32 codec and of the code check.
use xira_net.Common.{
  ℕ, ◌/◌, ◌≡◌, refl, ◌↔◌, true, Option, none, some, List, [], ◌∷◌, ◌++◌, arith, codes, nat_eq,
  text_eq,
}
use xira_net.Identity.Mfa.{
  char_at, flush, last_char, encode_from, base32_encode, digit_value, push_digit, decode_char,
  decode_from, base32_decode, bin_code, code_of, generate_totp_code, verify_totp, generate_secret,
}
use xira_net.Identity.Mfa.Base32.{base32_decode-base32_encode}
use xira_net.Identity.Mfa.Window.{verify_totp_iff, Near}

encodes_foobar : base32_encode (codes "foobar") ≡ codes "MZXW6YTBOI"
unfolding base32_encode encode_from flush last_char char_at
encodes_foobar = refl

reads_padding : base32_decode (codes "mzxw 6===") ≡ some (codes "foo")
unfolding base32_decode decode_from decode_char digit_value push_digit
reads_padding = refl

refuses_one : base32_decode (codes "MZXW1") ≡ none
unfolding base32_decode decode_from decode_char digit_value push_digit
refuses_one = refl

-- The digest of the example of RFC 4226, section 5.4.
abbrev rfc_digest : List ℕ
rfc_digest =
    0x1f ∷ 0x86 ∷ 0x98 ∷ 0x69 ∷ 0x0e ∷ 0x02 ∷ 0xca ∷ 0x16 ∷ 0x61 ∷ 0x85 ∷ 0x50 ∷ 0xef ∷ 0x7f ∷ 0x19
    ∷ 0xda ∷ 0x8e ∷ 0x94 ∷ 0x5b ∷ 0x55 ∷ 0x5a ∷ []

rfc_code : code_of (some rfc_digest) ≡ codes "872921"
unfolding code_of bin_code
rfc_code = refl

abbrev toy_mac : List ℕ → List ℕ → Option (List ℕ)
toy_mac key message = some (key ++ message)

base32_decode-base32_encode_example :
    base32_decode (base32_encode (255 ∷ 0 ∷ 128 ∷ [])) ≡ some (255 ∷ 0 ∷ 128 ∷ [])
base32_decode-base32_encode_example =
    base32_decode-base32_encode (255 ∷ 0 ∷ 128 ∷ []) (omega arith, (omega arith, (omega arith, tt)))

verify_totp_iff_example :
    (verify_totp toy_mac 95 (generate_secret (9 ∷ 8 ∷ [])) (codes "000001") ≡ true) ↔ (
      (step : ℕ) × Near (95 / 30) step
      × (codes "000001" ≡ generate_totp_code toy_mac (9 ∷ 8 ∷ []) step))
verify_totp_iff_example =
    verify_totp_iff toy_mac 95 (9 ∷ 8 ∷ []) (codes "000001") (omega arith, (omega arith, tt))
