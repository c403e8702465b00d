-- ===== src/Middleware/Jwt/Normal.antt =====
-- `normalize_path` written once more: what it keeps, and that a second round changes nothing.
use xira_net.Common.{
  ℕ, ◌≡◌, refl, sym, ap, ◌∙◌, Bool, true, false, ◌&&◌, ◌||◌, List, [], ◌∷◌, ◌++◌, arith, Text,
  split, split-append, Without, split-whole, length, is_empty, length-append, All, ltb,
  if◌then◌else◌, eqb_iff, nat_eq, text_eq,
}
use mathlib.Core.List.{append-nil, append_assoc}
use xira_net.Middleware.Jwt.{
  ends_with, begins_with, resolve_onto, resolved, join_slash, has_trailing_slash, with_leading,
  with_trailing, normalize_path, resolve_segment,
}
use xira_net.Middleware.Jwt.Segments.{
  IsPlain, resolved-IsPlain, resolve_onto-append, resolve_onto-same,
}

plain-begins : (s t : Text) → IsPlain s → begins_with b'/' (s ++ t) ≡ false
unfolding begins_with
plain-begins [] t h = ground (arith, h.not_empty)
plain-begins (c ∷ s) t h = ground (arith, h.no_slash, eqb_iff c b'/')

Without-ends : (c : ℕ) (s : Text) → Without c s → ends_with c s ≡ false
unfolding ends_with
Without-ends c [] h = refl
Without-ends c (d ∷ []) h = ground (arith, eqb_iff d c)
Without-ends c (d ∷ e ∷ s) h = Without-ends c (e ∷ s) h.1

ends_with-append : (c d : ℕ) (s t : Text) → ends_with c (s ++ d ∷ t) ≡ ends_with c (d ∷ t)
unfolding ends_with
ends_with-append c d [] t = refl
ends_with-append c d (x ∷ []) t = refl
ends_with-append c d (x ∷ y ∷ s) t = ends_with-append c d (y ∷ s) t

ends-skip : (c d : ℕ) (t : Text) → is_empty t ≡ false → ends_with c (d ∷ t) ≡ ends_with c t
unfolding ends_with
ends-skip c d [] h = ground (arith, h)
ends-skip c d (e ∷ t) h = refl

append-not-empty : (s : Text) (c : ℕ) (t : Text) → is_empty (s ++ c ∷ t) ≡ false
append-not-empty [] c t = refl
append-not-empty (x ∷ s) c t = refl

join-begins :
    (x : Text) (xs : List Text)
    → All IsPlain (x ∷ xs)
    → (t : Text) → begins_with b'/' (join_slash (x ∷ xs) ++ t) ≡ false
unfolding join_slash
join-begins x [] h t = plain-begins x t h.0
join-begins x (y ∷ xs) h t =
    rw (append_assoc x (b'/' ∷ join_slash (y ∷ xs)) t) (plain-begins x _ h.0)

join-ends :
    (x : Text) (xs : List Text)
    → All IsPlain (x ∷ xs)
    → (ends_with b'/' (join_slash (x ∷ xs)) ≡ false) × (is_empty (join_slash (x ∷ xs)) ≡ false)
unfolding join_slash
join-ends x [] h = (Without-ends b'/' x h.0.no_slash, h.0.not_empty)
join-ends x (y ∷ xs) h = (
  ends_with-append b'/' b'/' x (join_slash (y ∷ xs))
      ∙ ends-skip b'/' b'/' (join_slash (y ∷ xs)) (join-ends y xs h.1).1
      ∙ (join-ends y xs h.1).0,
  append-not-empty x b'/' (join_slash (y ∷ xs)),
)

split-join :
    (x : Text) (xs : List Text) → All IsPlain (x ∷ xs) → split b'/' (join_slash (x ∷ xs)) ≡ x ∷ xs
unfolding join_slash
split-join x [] h = split-whole b'/' x h.0.no_slash
split-join x (y ∷ xs) h =
    rw (split-append b'/' x (join_slash (y ∷ xs)))
      (rw (split-whole b'/' x h.0.no_slash) (ap (◌∷◌ x) (split-join y xs h.1)))

abbrev pub slash_if : Bool → Text
slash_if b = if b then b'/' ∷ [] else []

-- The text that stands for a stack of plain segments.
abbrev pub path_text : Bool → Bool → List Text → Text
path_text leading trailing [] = slash_if (leading || trailing)
path_text leading trailing (x ∷ xs) = slash_if leading ++ (join_slash (x ∷ xs) ++ slash_if trailing)

leading-ends :
    (l : Bool) (x : Text) (xs : List Text)
    → All IsPlain (x ∷ xs)
    → ends_with b'/' (with_leading l (join_slash (x ∷ xs))) ≡ false
unfolding with_leading
leading-ends true x xs h = ends-skip b'/' b'/' _ (join-ends x xs h).1 ∙ (join-ends x xs h).0
leading-ends false x xs h = (join-ends x xs h).0

suffix : (t : Bool) (s : Text) → (if t && true then s ++ b'/' ∷ [] else s) ≡ s ++ slash_if t
suffix true s = refl
suffix false s = sym (append-nil s)

written :
    (l t : Bool) (xs : List Text)
    → All IsPlain xs
    → with_trailing t (with_leading l (join_slash xs)) ≡ path_text l t xs
unfolding with_trailing with_leading join_slash ends_with
written true true [] h = refl
written true false [] h = refl
written false true [] h = refl
written false false [] h = refl
written true t (x ∷ xs) h = rw (leading-ends true x xs h) (suffix t (b'/' ∷ join_slash (x ∷ xs)))
written false t (x ∷ xs) h = rw (leading-ends false x xs h) (suffix t (join_slash (x ∷ xs)))

pub normalize_path-path_text :
    (p : Text)
    → normalize_path p ≡ path_text (begins_with b'/' p) (has_trailing_slash p) (resolved p)
unfolding normalize_path
normalize_path-path_text p =
    written (begins_with b'/' p) (has_trailing_slash p) (resolved p) (resolved-IsPlain p)

abbrev empty_if : Bool → List Text
empty_if b = if b then [] ∷ [] else []

front-split : (l : Bool) (s : Text) → split b'/' (slash_if l ++ s) ≡ empty_if l ++ split b'/' s
front-split true s = split-append b'/' [] s ∙ ap (λ q. q ++ split b'/' s) (split-whole b'/' [] tt)
front-split false s = refl

back-split : (t : Bool) (s : Text) → split b'/' (s ++ slash_if t) ≡ split b'/' s ++ empty_if t
back-split true s = split-append b'/' s [] ∙ ap (λ q. split b'/' s ++ q) (split-whole b'/' [] tt)
back-split false s = rw (append-nil s) (sym (append-nil (split b'/' s)))

pub text-split :
    (l t : Bool) (x : Text) (xs : List Text)
    → All IsPlain (x ∷ xs)
    → split b'/' (path_text l t (x ∷ xs)) ≡ empty_if l ++ ((x ∷ xs) ++ empty_if t)
text-split l t x xs h =
    front-split l _
    ∙ ap (λ q. empty_if l ++ q) (back-split t _ ∙ ap (λ q. q ++ empty_if t) (split-join x xs h))

empty-front : (b : Bool) (stack : List Text) → resolve_onto stack (empty_if b) ≡ stack
unfolding resolve_onto resolve_segment
empty-front true stack = refl
empty-front false stack = refl

slash-split : split b'/' (b'/' ∷ []) ≡ [] ∷ [] ∷ []
slash-split = front-split true [] ∙ ap (λ q. [] ∷ q) (split-whole b'/' [] tt)

text-resolved : (l t : Bool) (xs : List Text) → All IsPlain xs → resolved (path_text l t xs) ≡ xs
unfolding resolved resolve_onto resolve_segment
text-resolved true t [] h = rw slash-split refl
text-resolved false true [] h = rw slash-split refl
text-resolved false false [] h = rw (split-whole b'/' [] tt) refl
text-resolved l t (x ∷ xs) h = rw (text-split l t x xs h) (
    rw (resolve_onto-append [] (empty_if l) ((x ∷ xs) ++ empty_if t)) (
      rw (empty-front l []) (
        rw (resolve_onto-append [] (x ∷ xs) (empty_if t))
          (rw (empty-front t (resolve_onto [] (x ∷ xs))) (resolve_onto-same (x ∷ xs) h)))))

text-begins :
    (l t : Bool) (x : Text) (xs : List Text)
    → All IsPlain (x ∷ xs)
    → begins_with b'/' (path_text l t (x ∷ xs)) ≡ l
unfolding begins_with
text-begins true t x xs h = refl
text-begins false t x xs h = join-begins x xs h (slash_if t)

long-not-empty : (s : Text) (c : ℕ) → is_empty s ≡ false → ltb 1 (length (s ++ c ∷ [])) ≡ true
long-not-empty [] c h = ground (arith, h)
long-not-empty (x ∷ s) c h = ground (arith, length-append s (c ∷ []))

ended : (s : Text) → is_empty s ≡ false → has_trailing_slash (s ++ b'/' ∷ []) ≡ true
unfolding has_trailing_slash ends_with
ended s h = rw (ends_with-append b'/' b'/' s []) (rw (long-not-empty s b'/' h) refl)

unended : (s : Text) → ends_with b'/' s ≡ false → has_trailing_slash s ≡ false
unfolding has_trailing_slash
unended s h = ground (arith, h)

text-trails :
    (l t : Bool) (x : Text) (xs : List Text)
    → All IsPlain (x ∷ xs)
    → has_trailing_slash (path_text l t (x ∷ xs)) ≡ t
unfolding with_leading
text-trails false true x xs h = ended (join_slash (x ∷ xs)) (join-ends x xs h).1
text-trails true true x xs h = ended (b'/' ∷ join_slash (x ∷ xs)) refl
text-trails false false x xs h =
    rw (append-nil (join_slash (x ∷ xs))) (unended _ (join-ends x xs h).0)
text-trails true false x xs h =
    rw (append-nil (join_slash (x ∷ xs))) (unended _ (leading-ends true x xs h))

text-normal :
    (l t : Bool) (xs : List Text)
    → All IsPlain xs
    → normalize_path (path_text l t xs) ≡ path_text l t xs
unfolding begins_with has_trailing_slash ends_with
text-normal l t xs h =
    rw (normalize_path-path_text (path_text l t xs)) (rw (text-resolved l t xs h) (again l t xs h))
  where
    again :
        (l t : Bool) (xs : List Text)
        → All IsPlain xs
        → path_text (begins_with b'/' (path_text l t xs)) (has_trailing_slash (path_text l t xs)) xs
          ≡ path_text l t xs
    again true t [] h = refl
    again false true [] h = refl
    again false false [] h = refl
    again l t (x ∷ xs) h = rw (text-begins l t x xs h) (rw (text-trails l t x xs h) refl)

-- A second normalisation of a path changes nothing.
pub normalize_path_idem : (p : Text) → normalize_path (normalize_path p) ≡ normalize_path p
normalize_path_idem p =
    rw (normalize_path-path_text p)
      (text-normal (begins_with b'/' p) (has_trailing_slash p) (resolved p) (resolved-IsPlain p))
