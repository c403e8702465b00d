-- ===== src/Identity/Mfa.antt =====
-- src/identity/mfa.rs: the base32 of the TOTP secrets, and the codes. The HMAC is that of the crates
-- `hmac` and `sha1`, and stands as a function. `|` on bits that are free is written `+`.
pub mod Base32
pub mod Window
mod Tests
use mathlib.Core.Option
use xira_net.Common.{
  ℕ, zero, suc, ◌+◌, ◌-◌, ◌*◌, ◌/◌, ◌%◌, ◌^◌, Bool, false, ◌&&◌, ◌||◌, Option, none, some, List, [],
  ◌∷◌, ◌++◌, map, Text, codes, is_whitespace, ◌==◌, length, get_or, any, leb, eqb, if◌then◌else◌,
  nat_eq, text_eq,
}

abbrev pub alphabet : Text
alphabet = codes "ABCDEFGHIJKLMNOPQRSTUVWXYZ234567"

-- `ALPHABET[index] as char`.
unfoldable pub char_at : ℕ → ℕ
char_at index = get_or alphabet index 0

-- The shifts of the buffers, which are of 64 and of 32 bits.
abbrev pub shl64 : ℕ → ℕ → ℕ
shl64 a k = a * 2 ^ k % 18446744073709551616

abbrev pub shl32 : ℕ → ℕ → ℕ
shl32 a k = a * 2 ^ k % 4294967296

-- The loop `while bits_left >= 5`: the characters pushed, and the bits left.
unfoldable pub flush : ℕ → ℕ → Text × ℕ
flush buffer (suc (suc (suc (suc (suc bits_left))))) =
    let rest = flush buffer bits_left in (char_at (buffer / 2 ^ bits_left % 32) ∷ rest.0, rest.1)
flush buffer bits_left = ([], bits_left)

unfoldable pub last_char : ℕ → ℕ → Text
last_char buffer zero = []
last_char buffer (suc bits) = char_at (shl64 buffer (5 - suc bits) % 32) ∷ []

unfoldable pub encode_from : ℕ → ℕ → List ℕ → Text
unfolding flush last_char
encode_from buffer bits_left [] = last_char buffer bits_left
encode_from buffer bits_left (byte ∷ bytes) =
    let wider = shl64 buffer 8 + byte in
    let flushed = flush wider (bits_left + 8) in flushed.0 ++ encode_from wider flushed.1 bytes

unfoldable pub base32_encode : List ℕ → Text
unfolding encode_from
base32_encode bytes = encode_from 0 0 bytes

pub record Decoder : Type 0 where
  pub buffer : ℕ
  pub bits_left : ℕ
  pub result : List ℕ

abbrev pub upper : ℕ → ℕ
upper c = if leb b'a' c && leb c b'z' then c - 32 else c

unfoldable pub digit_value : ℕ → Option ℕ
digit_value c =
    if leb b'A' (upper c) && leb (upper c) b'Z'
    then some (upper c - b'A')
    else if leb b'2' c && leb c b'7'
    then some (c - b'2' + 26)
    else none

unfoldable pub push_digit : Decoder → ℕ → Decoder
push_digit d val =
    let buffer = shl32 d.buffer 5 + val in
    if leb 8 (d.bits_left + 5)
    then record {
      buffer = buffer;
      bits_left = d.bits_left + 5 - 8;
      result = d.result ++ (buffer / 2 ^ (d.bits_left + 5 - 8) % 256) ∷ [];
    }
    else record { buffer = buffer; bits_left = d.bits_left + 5; result = d.result }

unfoldable pub decode_char : Decoder → ℕ → Option Decoder
unfolding digit_value push_digit
decode_char d c =
    if eqb c b'=' || is_whitespace c then some d else Option.map (push_digit d) (digit_value c)

unfoldable pub decode_from : Decoder → Text → Option (List ℕ)
unfolding decode_char
decode_from d [] = some d.result
decode_from d (c ∷ input) = elim (decode_char d c) [ none ↦ none | some e ↦ decode_from e input ]

unfoldable pub base32_decode : Text → Option (List ℕ)
unfolding decode_from
base32_decode input = decode_from (record { buffer = 0; bits_left = 0; result = [] }) input

-- `to_be_bytes` of the counter.
abbrev be_bytes : ℕ → List ℕ
be_bytes n =
    n / 2 ^ 56 % 256
    ∷ n / 2 ^ 48 % 256
    ∷ n / 2 ^ 40 % 256
    ∷ n / 2 ^ 32 % 256
    ∷ n / 2 ^ 24 % 256
    ∷ n / 2 ^ 16 % 256
    ∷ n / 2 ^ 8 % 256
    ∷ n % 256
    ∷ []

-- `format!("{:06}", n)` of a number below 1000000.
abbrev six_digits : ℕ → Text
six_digits n =
    (n / 100000 % 10 + b'0')
    ∷ (n / 10000 % 10 + b'0')
    ∷ (n / 1000 % 10 + b'0')
    ∷ (n / 100 % 10 + b'0')
    ∷ (n / 10 % 10 + b'0')
    ∷ (n % 10 + b'0')
    ∷ []

-- The dynamic truncation of RFC 4226.
unfoldable pub bin_code : List ℕ → ℕ
bin_code hash =
    let offset = get_or hash (length hash - 1) 0 % 16 in
    get_or hash offset 0 % 128 * 2 ^ 24
    + get_or hash (offset + 1) 0 * 2 ^ 16
    + get_or hash (offset + 2) 0 * 2 ^ 8
    + get_or hash (offset + 3) 0

unfoldable pub code_of : Option (List ℕ) → Text
unfolding bin_code
code_of none = codes "000000"
code_of (some hash) = six_digits (bin_code hash % 1000000)

module _ (hmac_sha1 : List ℕ → List ℕ → Option (List ℕ)) where
  unfoldable pub generate_totp_code : List ℕ → ℕ → Text
  unfolding code_of
  generate_totp_code key time_step = code_of (hmac_sha1 key (be_bytes time_step))

  unfoldable pub any_step : Text → List ℕ → ℕ → Bool
  unfolding generate_totp_code
  any_step code key time_step =
      any (λ step. generate_totp_code key step == code)
        (time_step ∷ (time_step - 1) ∷ (time_step + 1) ∷ [])

  unfoldable pub verify_key : ℕ → Text → Option (List ℕ) → Bool
  unfolding any_step
  verify_key now code none = false
  verify_key now code (some key) = any_step code key (now / 30)

  unfoldable pub verify_totp : ℕ → Text → Text → Bool
  unfolding verify_key
  verify_totp now secret code = verify_key now code (base32_decode secret)

-- The secret of an enrolment, from the bytes that were drawn.
unfoldable pub generate_secret : List ℕ → Text
generate_secret drawn = base32_encode drawn
