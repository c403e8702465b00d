-- ===== src/Gateway/ResponseCache/Variants.antt =====
-- When two texts of compute_vary_etag agree, the headers that they were made from do.
use xira_net.Common.{
  ◌≡◌, refl, sym, ap, ◌∙◌, ◌≢◌, true, ◌||◌, Option, none, some, List, [], ◌∷◌, ◌++◌, map, arith,
  Text, codes, split, split-append, Without, split-whole, ◌==◌, ==_iff, is_empty, All, All-append,
  nat_eq, text_eq,
}
use mathlib.Core.List.{append_assoc}
use xira_net.Gateway.ResponseCache.{
  Headers, CachedResponse, header_value, join, compute_vary_etag, same_variant,
}

-- A part of the text that compute_vary_etag joins.
abbrev part : Headers → Text → Text
part headers name = name ++ codes "=" ++ header_value name headers

-- Neither the name nor either value has the bar by which the parts are joined.
abbrev pub HasNoBar : Headers → Headers → Text → Type 0
HasNoBar rh headers name =
    Without b'|' name
    × (Without b'|' (header_value name rh) × Without b'|' (header_value name headers))

abbrev pub NoBars : Option CachedResponse → Headers → Type 0
NoBars none rh = Unit
NoBars (some e) rh = All (HasNoBar rh e.headers) e.vary_on

-- The request has the values of the response's own headers, by the names that it varies on.
abbrev pub Agrees : CachedResponse → Headers → Type 0
Agrees e rh = All (λ name. header_value name rh ≡ header_value name e.headers) e.vary_on

part-Without :
    (headers : Headers) (name : Text)
    → Without b'|' name
    → Without b'|' (header_value name headers)
    → Without b'|' (part headers name)
part-Without headers name hn hv =
    All-append (λ d. d ≢ b'|') (name ++ codes "=") (header_value name headers)
      (All-append (λ d. d ≢ b'|') name (codes "=") hn ((λ h. ground (arith, h)), tt)) hv

split-join :
    (x : Text) (xs : List Text)
    → All (Without b'|') (x ∷ xs)
    → split b'|' (join (codes "|") (x ∷ xs)) ≡ x ∷ xs
unfolding join
split-join x [] h = split-whole b'|' x h.0
split-join x (y ∷ xs) h =
    ap (split b'|') (append_assoc x (codes "|") (join (codes "|") (y ∷ xs)))
    ∙ split-append b'|' x (join (codes "|") (y ∷ xs))
    ∙ rw (split-whole b'|' x h.0, split-join y xs h.1) refl

append_cancel : (p v w : Text) → p ++ v ≡ p ++ w → v ≡ w
append_cancel [] v w h = h
append_cancel (c ∷ p) v w h = append_cancel p v w (ground (arith, h))

parts-agree :
    (rh headers : Headers) (names : List Text)
    → map (part rh) names ≡ map (part headers) names
    → All (λ name. header_value name rh ≡ header_value name headers) names
parts-agree rh headers [] h = tt
parts-agree rh headers (n ∷ names) h = (
  append_cancel (n ++ codes "=") (header_value n rh) (header_value n headers) (ground (arith, h)),
  parts-agree rh headers names (ground (arith, h)),
)

parts-Without :
    (rh headers : Headers) (names : List Text)
    → All (HasNoBar rh headers) names
    → All (Without b'|') (map (part rh) names) × All (Without b'|') (map (part headers) names)
parts-Without rh headers [] h = (tt, tt)
parts-Without rh headers (n ∷ names) h =
    let rest = parts-Without rh headers names h.1 in
    ((part-Without rh n h.0.0 h.0.1.0, rest.0), (part-Without headers n h.0.0 h.0.1.1, rest.1))

etags-agree :
    (rh headers : Headers) (names : List Text)
    → All (HasNoBar rh headers) names
    → compute_vary_etag names rh ≡ compute_vary_etag names headers
    → All (λ name. header_value name rh ≡ header_value name headers) names
unfolding compute_vary_etag
etags-agree rh headers [] h e = tt
etags-agree rh headers (n ∷ names) h e =
    let w = parts-Without rh headers (n ∷ names) h in
    parts-agree rh headers (n ∷ names) (
      sym (split-join (part rh n) (map (part rh) names) w.0)
      ∙ ap (split b'|') e
      ∙ split-join (part headers n) (map (part headers) names) w.1)

pub same_variant-Agrees :
    (e : CachedResponse) (rh : Headers)
    → All (HasNoBar rh e.headers) e.vary_on
    → same_variant e rh ≡ true
    → Agrees e rh
unfolding same_variant
same_variant-Agrees e rh h s = from e.vary_on h s
  where
    from :
        (names : List Text)
        → All (HasNoBar rh e.headers) names
        → (is_empty names || compute_vary_etag names rh == compute_vary_etag names e.headers) ≡ true
        → All (λ name. header_value name rh ≡ header_value name e.headers) names
    from [] h s = tt
    from (n ∷ names) h s =
        etags-agree rh e.headers (n ∷ names) h (
          (==_iff (compute_vary_etag (n ∷ names) rh) (compute_vary_etag (n ∷ names) e.headers)).0 s)
