-- ===== src/Common/Bytes.antt =====
-- Text as the list of its bytes, and the operations of `str` that the source uses.
use Prim.Native.Nat.{ℕ, ◌+◌, ◌-◌, ◌*◌}
use Prim.Native.Char.{code}
use Prim.Native.String.{String}
use mathlib.Core.Path.{◌≡◌, refl, sym, ap}
use mathlib.Core.Logic.{◌≢◌, inl, inr}
use mathlib.Core.Bool.{Bool, true, ◌&&◌, ◌||◌}
use mathlib.Core.List.{List, [], ◌∷◌, ◌++◌, append-nil, append_assoc}
use mathlib.Core.Option.{Option, none, some}
use native.Mathlib.Omega.{arith}
use xira_net.Common.Tests.{if◌then◌else◌, eqb, eqb_iff, leb, is_some, Bool-cases}
use xira_net.Common.Lists.{is_empty, All, All-append}

abbrev pub Text : Type 0
Text = List ℕ

-- The code points of a literal: its bytes, where it is ASCII.
abbrev pub codes : String → Text
codes String.[] = []
codes (String.◌∷◌ c s) = code c ∷ codes s

-- `s.strip_prefix(p)`, with the prefix first.
unfoldable pub strip_prefix : Text → Text → Option Text
strip_prefix [] s = some s
strip_prefix (c ∷ p) [] = none
strip_prefix (c ∷ p) (d ∷ s) = if eqb c d then strip_prefix p s else none

pub strip_prefix_sound : (p s r : Text) → strip_prefix p s ≡ some r → s ≡ p ++ r
unfolding strip_prefix
strip_prefix_sound [] s r h = ground arith
strip_prefix_sound (c ∷ p) [] r h = ground arith
strip_prefix_sound (c ∷ p) (d ∷ s) r h = ground (arith, strip_prefix_sound p s r)

unfoldable pub starts_with : Text → Text → Bool
unfolding strip_prefix
starts_with s p = is_some (strip_prefix p s)

pub starts_with_refl : (p r : Text) → starts_with (p ++ r) p ≡ true
unfolding starts_with
starts_with_refl [] r = refl
starts_with_refl (c ∷ p) r = ground (arith, starts_with_refl p r)

-- `s.trim_end_matches(c)`.
unfoldable pub trim_end_matches : ℕ → Text → Text
trim_end_matches c [] = []
trim_end_matches c (d ∷ s) =
    let rest = trim_end_matches c s in if is_empty rest && eqb d c then [] else d ∷ rest

unfoldable pub split_from : ℕ → Text → Text → List Text
split_from c part [] = part ∷ []
split_from c part (d ∷ s) =
    let ends = part ∷ split_from c [] s in
    let goes_on = split_from c (part ++ d ∷ []) s in if eqb d c then ends else goes_on

-- `s.split(c)`.
unfoldable pub split : ℕ → Text → List Text
unfolding split_from
split c s = split_from c [] s

-- White space among the ASCII characters.
abbrev pub is_whitespace : ℕ → Bool
is_whitespace c = eqb c 32 || (leb 9 c && leb c 13)

trim_start : Text → Text
trim_start [] = []
trim_start (c ∷ s) = let rest = trim_start s in if is_whitespace c then rest else c ∷ s

trim_end : Text → Text
trim_end [] = []
trim_end (c ∷ s) =
    let rest = trim_end s in if is_empty rest && is_whitespace c then [] else c ∷ rest

-- `s.trim()`, for ASCII text.
unfoldable pub trim : Text → Text
unfolding trim_start trim_end
trim s = trim_end (trim_start s)

abbrev pub lower : ℕ → ℕ
lower c = if leb b'A' c && leb c b'Z' then c + 32 else c

unfoldable pub to_ascii_lowercase : Text → Text
to_ascii_lowercase [] = []
to_ascii_lowercase (c ∷ s) = lower c ∷ to_ascii_lowercase s

-- `s.contains(t)`.
unfoldable pub contains : Text → Text → Bool
unfolding starts_with
contains [] t = is_empty t
contains (c ∷ s) t = starts_with (c ∷ s) t || contains s t

-- `s.split_once(c)`.
unfoldable pub split_once : ℕ → Text → Option (Text × Text)
split_once c [] = none
split_once c (d ∷ s) =
    if eqb d c
    then some ([], s)
    else elim (split_once c s) [ none ↦ none | some (a, b) ↦ some (d ∷ a, b) ]

digits_from : ℕ → ℕ → Text → Option ℕ
digits_from most n [] = some n
digits_from most n (c ∷ s) =
    let rest = digits_from most (n * 10 + (c - b'0')) s in
    if leb b'0' c && leb c b'9' && leb (n * 10 + (c - b'0')) most then rest else none

unsigned_digits : ℕ → Text → Option ℕ
unsigned_digits most [] = none
unsigned_digits most (c ∷ s) = digits_from most 0 (c ∷ s)

-- `s.parse()` at an unsigned type whose greatest value is `most`: digits, behind a `+` or not.
unfoldable pub parse_uint : ℕ → Text → Option ℕ
unfolding digits_from unsigned_digits
parse_uint most [] = none
parse_uint most (c ∷ s) =
    if eqb c b'+' then unsigned_digits most s else unsigned_digits most (c ∷ s)

-- A text cut at a separator splits into the parts of both sides.
split_from-append :
    (c : ℕ) (part s t : Text)
    → split_from c part (s ++ c ∷ t) ≡ split_from c part s ++ split_from c [] t
unfolding split_from
split_from-append c part [] t = ground (arith, eqb_iff c c)
split_from-append c part (d ∷ s) t = elim (Bool-cases (eqb d c)) [
  | inl e ↦ rw e (ap (◌∷◌ part) (split_from-append c [] s t))
  | inr e ↦ rw e (split_from-append c (part ++ d ∷ []) s t)
]

pub split-append : (c : ℕ) (s t : Text) → split c (s ++ c ∷ t) ≡ split c s ++ split c t
unfolding split
split-append c s t = split_from-append c [] s t

abbrev pub Without : ℕ → Text → Type 0
Without c s = All (λ d. d ≢ c) s

-- No part of a split text has the separator.
split_from-Without :
    (c : ℕ) (part s : Text) → Without c part → All (Without c) (split_from c part s)
unfolding split_from
split_from-Without c part [] h = (h, tt)
split_from-Without c part (d ∷ s) h = elim (Bool-cases (eqb d c)) [
  | inl e ↦ rw e (h, split_from-Without c [] s tt)
  | inr n ↦ rw n (
      split_from-Without c (part ++ d ∷ []) s
        (All-append (λ x. x ≢ c) part (d ∷ []) h (ground (arith, eqb_iff d c))))
]

pub split-Without : (c : ℕ) (s : Text) → All (Without c) (split c s)
unfolding split
split-Without c s = split_from-Without c [] s tt

split_from-whole : (c : ℕ) (part s : Text) → Without c s → split_from c part s ≡ (part ++ s) ∷ []
unfolding split_from
split_from-whole c part [] h = ap (λ l. l ∷ []) (sym (append-nil part))
split_from-whole c part (d ∷ s) h =
    ground (arith, eqb_iff d c, split_from-whole c (part ++ d ∷ []) s, append_assoc part (d ∷ []) s)

pub split-whole : (c : ℕ) (s : Text) → Without c s → split c s ≡ s ∷ []
unfolding split
split-whole c s h = split_from-whole c [] s h
