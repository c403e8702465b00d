-- ===== src/Middleware/Jwt/Segments.antt =====
-- What the loop of `normalize_path` leaves: segments that are not empty, not "." and not "..".
use xira_net.Common.{
  ◌≡◌, refl, ◌∙◌, false, List, [], ◌∷◌, ◌++◌, arith, Text, codes, split, Without, split-Without,
  ◌==◌, drop, is_empty, All, nat_eq, text_eq,
}
use mathlib.Core.List.{append-nil}
use xira_net.Middleware.Jwt.{resolve_segment, resolve_onto, reverse_onto, resolved}

-- A segment that names a step down.
pub record IsPlain (s : Text) : Type 0 where
  pub not_empty : is_empty s ≡ false
  pub not_dot : (s == codes ".") ≡ false
  pub not_dots : (s == codes "..") ≡ false
  pub no_slash : Without b'/' s

drop-All : (P : Text → Type 0) (xs : List Text) → All P xs → All P (drop 1 xs)
drop-All P [] h = h
drop-All P (x ∷ xs) h = h.1

resolve_segment-IsPlain :
    (seg : Text) (stack : List Text)
    → Without b'/' seg
    → All IsPlain stack
    → All IsPlain (resolve_segment seg stack)
unfolding resolve_segment
resolve_segment-IsPlain seg stack w h = ground (arith, drop-All IsPlain stack h, plain)
  where
    plain :
        is_empty seg ≡ false
        → (seg == codes ".") ≡ false
        → (seg == codes "..") ≡ false
        → IsPlain seg
    plain a b c = record { not_empty = a; not_dot = b; not_dots = c; no_slash = w }

resolve_onto-IsPlain :
    (stack segs : List Text)
    → All IsPlain stack
    → All (Without b'/') segs
    → All IsPlain (resolve_onto stack segs)
unfolding resolve_onto
resolve_onto-IsPlain stack [] h w = h
resolve_onto-IsPlain stack (seg ∷ segs) h w =
    resolve_onto-IsPlain (resolve_segment seg stack) segs (resolve_segment-IsPlain seg stack w.0 h)
      w.1

reverse_onto-All :
    (P : Text → Type 0) (done xs : List Text) → All P done → All P xs → All P (reverse_onto done xs)
reverse_onto-All P done [] h w = h
reverse_onto-All P done (x ∷ xs) h w = reverse_onto-All P (x ∷ done) xs (w.0, h) w.1

pub resolved-IsPlain : (p : Text) → All IsPlain (resolved p)
unfolding resolved
resolved-IsPlain p =
    reverse_onto-All IsPlain [] (resolve_onto [] (split b'/' p)) tt
      (resolve_onto-IsPlain [] (split b'/' p) tt (split-Without b'/' p))

-- Plain segments all go onto the stack.
resolve_onto-plain :
    (stack segs : List Text) → All IsPlain segs → resolve_onto stack segs ≡ reverse_onto stack segs
unfolding resolve_onto resolve_segment
resolve_onto-plain stack [] h = refl
resolve_onto-plain stack (s ∷ segs) h =
    rw h.0.not_empty (rw h.0.not_dot (rw h.0.not_dots (resolve_onto-plain (s ∷ stack) segs h.1)))

pub resolve_onto-append :
    (stack xs ys : List Text)
    → resolve_onto stack (xs ++ ys) ≡ resolve_onto (resolve_onto stack xs) ys
unfolding resolve_onto
resolve_onto-append stack [] ys = refl
resolve_onto-append stack (x ∷ xs) ys = resolve_onto-append (resolve_segment x stack) xs ys

reverse-reverse :
    (done bs xs : List Text) → reverse_onto done (reverse_onto bs xs) ≡ reverse_onto (xs ++ done) bs
reverse-reverse done bs [] = refl
reverse-reverse done bs (x ∷ xs) = reverse-reverse done (x ∷ bs) xs

-- Empty segments in front and behind change nothing.
pub resolve_onto-same :
    (xs : List Text) → All IsPlain xs → reverse_onto [] (resolve_onto [] xs) ≡ xs
resolve_onto-same xs h = rw (resolve_onto-plain [] xs h) (reverse-reverse [] [] xs ∙ append-nil xs)
