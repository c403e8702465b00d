-- ===== src/Identity/Mfa/Base32.antt =====
-- `base32_decode` reads back what `base32_encode` wrote. Between two bytes the encoder holds 0, 3, 1,
-- 4 or 2 bits of a byte, whose other bits the decoder holds.
use xira_net.Common.{
  ℕ, zero, suc, ◌+◌, ◌*◌, ◌/◌, ◌%◌, ◌<◌, ◌≡◌, refl, sym, ap, ◌∙◌, subst, inl, inr, Bool, true,
  false, not, ◌&&◌, ◌||◌, Option, none, some, List, [], ◌∷◌, ◌++◌, arith, Text, is_whitespace, All,
  eqb, eqb_iff, Bool-cases, and-first, and-second, nat_eq, text_eq,
}
use mathlib.Core.Option
use mathlib.Core.List.{append-nil, append_assoc}
use xira_net.Identity.Mfa.{
  char_at, shl64, flush, last_char, encode_from, base32_encode, Decoder, digit_value, push_digit,
  decode_char, decode_from, base32_decode,
}

abbrev pub IsByte : ℕ → Type 0
IsByte b = b < 256

all_below : (ℕ → Bool) → ℕ → Bool
all_below p zero = true
all_below p (suc n) = p n && all_below p n

below : (p : ℕ → Bool) (n : ℕ) → all_below p n ≡ true → (i : ℕ) → i < n → p i ≡ true
unfolding all_below
below p zero e i h = absurd (omega (arith, h))
below p (suc n) e i h = elim (Bool-cases (eqb i n)) [
  | inl s ↦ subst (λ k. p k ≡ true) (sym ((eqb_iff i n).0 s)) (and-first _ _ e)
  | inr o ↦ below p n (and-second _ _ e) i (omega (arith, smaller o))
]
  where
    smaller : eqb i n ≡ false → i < n
    smaller o = ground (arith, o, h)

is_value : ℕ → Option ℕ → Bool
is_value i none = false
is_value i (some v) = eqb v i

is_value→eq : (i : ℕ) (o : Option ℕ) → is_value i o ≡ true → o ≡ some i
unfolding is_value
is_value→eq i none h = ground (arith, h)
is_value→eq i (some v) h = ap some ((eqb_iff v i).0 h)

reads_back : ℕ → Bool
unfolding is_value
reads_back i =
    not (eqb (char_at i) b'=' || is_whitespace (char_at i)) && is_value i (digit_value (char_at i))

all_read_back : all_below reads_back 32 ≡ true
unfolding all_below reads_back char_at digit_value
all_read_back = refl

not-false : (b : Bool) → not b ≡ true → b ≡ false
not-false true h = ground (arith, h)
not-false false h = refl

read :
    (d : Decoder) (i : ℕ) → reads_back i ≡ true → decode_char d (char_at i) ≡ some (push_digit d i)
unfolding decode_char reads_back
read d i e =
    rw (not-false (eqb (char_at i) b'=' || is_whitespace (char_at i)) (and-first _ _ e))
      (ap (Option.map (push_digit d)) (is_value→eq i (digit_value (char_at i)) (and-second _ _ e)))

-- A character of the alphabet stands for its place.
decode_char-char_at :
    (d : Decoder) (i : ℕ) → i < 32 → decode_char d (char_at i) ≡ some (push_digit d i)
decode_char-char_at d i h = read d i (below reads_back 32 all_read_back i h)

decode_from-digit :
    (d : Decoder) (i : ℕ) (s : Text)
    → i < 32
    → decode_from d (char_at i ∷ s) ≡ decode_from (push_digit d i) s
unfolding decode_from
decode_from-digit d i s h =
    ap (λ o. elim o [ none ↦ none | some e ↦ decode_from e s ]) (decode_char-char_at d i h)

abbrev decoder : ℕ → ℕ → List ℕ → Decoder
decoder b k out = record { buffer = b; bits_left = k; result = out }

-- What decoding the rest must give, by the number of bits that the encoder holds.
abbrev Holds0 : List ℕ → Type 0
Holds0 bs =
    (e d : ℕ) (out : List ℕ) → decode_from (decoder d 0 out) (encode_from e 0 bs) ≡ some (out ++ bs)

abbrev Holds3 : List ℕ → Type 0
Holds3 bs =
    (e d : ℕ) (out : List ℕ)
    → decode_from (decoder d 5 out) (encode_from e 3 bs) ≡ some (out ++ (d % 32 * 8 + e % 8) ∷ bs)

abbrev Holds1 : List ℕ → Type 0
Holds1 bs =
    (e d : ℕ) (out : List ℕ)
    → decode_from (decoder d 7 out) (encode_from e 1 bs) ≡ some (out ++ (d % 128 * 2 + e % 2) ∷ bs)

abbrev Holds4 : List ℕ → Type 0
Holds4 bs =
    (e d : ℕ) (out : List ℕ)
    → decode_from (decoder d 4 out) (encode_from e 4 bs) ≡ some (out ++ (d % 16 * 16 + e % 16) ∷ bs)

abbrev Holds2 : List ℕ → Type 0
Holds2 bs =
    (e d : ℕ) (out : List ℕ)
    → decode_from (decoder d 6 out) (encode_from e 2 bs) ≡ some (out ++ (d % 64 * 4 + e % 4) ∷ bs)

same_end : (out bs : List ℕ) (p q : ℕ) → p ≡ q → some (out ++ p ∷ bs) ≡ some (out ++ q ∷ bs)
same_end out bs p q e = ap (λ x. some (out ++ x ∷ bs)) e

step0 : (b : ℕ) (bs : List ℕ) → IsByte b → Holds3 bs → Holds0 (b ∷ bs)
unfolding encode_from flush push_digit
step0 b bs hb h e d out =
    let e1 = shl64 e 8 + b in
    decode_from-digit (decoder d 0 out) (e1 / 8 % 32) _ (omega arith)
    ∙ h e1 _ out
    ∙ same_end out bs _ b (omega (arith, hb))

-- One byte more of the output, and one to come.
pushed :
    (out bs : List ℕ) (p q a b : ℕ)
    → p ≡ a
    → q ≡ b
    → some ((out ++ p ∷ []) ++ q ∷ bs) ≡ some (out ++ a ∷ b ∷ bs)
pushed out bs p q a b ea eb = rw ea (rw eb (ap some (append_assoc out (a ∷ []) (b ∷ bs))))

pushed_both :
    (out bs : List ℕ) (p q a b : ℕ)
    → p ≡ a
    → q ≡ b
    → some (((out ++ p ∷ []) ++ q ∷ []) ++ bs) ≡ some (out ++ a ∷ b ∷ bs)
pushed_both out bs p q a b ea eb =
    ap some (append_assoc (out ++ p ∷ []) (q ∷ []) bs) ∙ pushed out bs p q a b ea eb

step3 : (b : ℕ) (bs : List ℕ) → IsByte b → Holds1 bs → Holds3 (b ∷ bs)
unfolding encode_from flush push_digit
step3 b bs hb h e d out =
    let e1 = shl64 e 8 + b in
    decode_from-digit (decoder d 5 out) (e1 / 64 % 32) _ (omega arith)
    ∙ decode_from-digit _ (e1 / 2 % 32) _ (omega arith)
    ∙ h e1 _ _
    ∙ pushed out bs _ _ (d % 32 * 8 + e % 8) b (omega (arith, hb)) (omega (arith, hb))

step1 : (b : ℕ) (bs : List ℕ) → IsByte b → Holds4 bs → Holds1 (b ∷ bs)
unfolding encode_from flush push_digit
step1 b bs hb h e d out =
    let e1 = shl64 e 8 + b in
    decode_from-digit (decoder d 7 out) (e1 / 16 % 32) _ (omega arith)
    ∙ h e1 _ _
    ∙ pushed out bs _ _ (d % 128 * 2 + e % 2) b (omega (arith, hb)) (omega (arith, hb))

step4 : (b : ℕ) (bs : List ℕ) → IsByte b → Holds2 bs → Holds4 (b ∷ bs)
unfolding encode_from flush push_digit
step4 b bs hb h e d out =
    let e1 = shl64 e 8 + b in
    decode_from-digit (decoder d 4 out) (e1 / 128 % 32) _ (omega arith)
    ∙ decode_from-digit _ (e1 / 4 % 32) _ (omega arith)
    ∙ h e1 _ _
    ∙ pushed out bs _ _ (d % 16 * 16 + e % 16) b (omega (arith, hb)) (omega (arith, hb))

step2 : (b : ℕ) (bs : List ℕ) → IsByte b → Holds0 bs → Holds2 (b ∷ bs)
unfolding encode_from flush push_digit
step2 b bs hb h e d out =
    let e1 = shl64 e 8 + b in
    decode_from-digit (decoder d 6 out) (e1 / 32 % 32) _ (omega arith)
    ∙ decode_from-digit _ (e1 / 1 % 32) _ (omega arith)
    ∙ h e1 _ _
    ∙ pushed_both out bs _ _ (d % 64 * 4 + e % 4) b (omega (arith, hb)) (omega (arith, hb))

-- At the end, the bits that are left are padded with zeros to a character.
ends0 : Holds0 []
unfolding encode_from last_char decode_from
ends0 e d out = ap some (sym (append-nil out))

ends3 : Holds3 []
unfolding encode_from last_char push_digit decode_from
ends3 e d out =
    decode_from-digit (decoder d 5 out) (shl64 e 2 % 32) [] (omega arith)
    ∙ same_end out [] _ (d % 32 * 8 + e % 8) (omega arith)

ends1 : Holds1 []
unfolding encode_from last_char push_digit decode_from
ends1 e d out =
    decode_from-digit (decoder d 7 out) (shl64 e 4 % 32) [] (omega arith)
    ∙ same_end out [] _ (d % 128 * 2 + e % 2) (omega arith)

ends4 : Holds4 []
unfolding encode_from last_char push_digit decode_from
ends4 e d out =
    decode_from-digit (decoder d 4 out) (shl64 e 1 % 32) [] (omega arith)
    ∙ same_end out [] _ (d % 16 * 16 + e % 16) (omega arith)

ends2 : Holds2 []
unfolding encode_from last_char push_digit decode_from
ends2 e d out =
    decode_from-digit (decoder d 6 out) (shl64 e 3 % 32) [] (omega arith)
    ∙ same_end out [] _ (d % 64 * 4 + e % 4) (omega arith)

holds : (bs : List ℕ) → All IsByte bs → Holds0 bs × Holds3 bs × Holds1 bs × Holds4 bs × Holds2 bs
holds [] h = (ends0, ends3, ends1, ends4, ends2)
holds (b ∷ bs) h =
    let r = holds bs h.1 in
    (
      step0 b bs h.0 r.1,
      step3 b bs h.0 r.2,
      step1 b bs h.0 r.3,
      step4 b bs h.0 r.4,
      step2 b bs h.0 r.0,
    )

-- Whatever bytes are encoded, decoding gives them back.
pub base32_decode-base32_encode :
    (bs : List ℕ) → All IsByte bs → base32_decode (base32_encode bs) ≡ some bs
unfolding base32_encode base32_decode
base32_decode-base32_encode bs h = (holds bs h).0 0 0 []
