-- ===== src/Gateway/ResponseCache/Keys.antt =====
-- The keys of two requests differ when the requests do.
use xira_net.Common.{
  ℕ, ◌≡◌, refl, sym, ap, ◌∙◌, ◌≢◌, false, Option, none, some, [], ◌∷◌, ◌++◌, arith, Text,
  split_once, Without, eqb, eqb_iff, some_inj, nat_eq, text_eq,
}
use xira_net.Gateway.ResponseCache.{make_key}

differs : (d c : ℕ) → d ≢ c → eqb d c ≡ false
differs d c h = ground (arith, h)

split_once-whole : (c : ℕ) (s t : Text) → Without c s → split_once c (s ++ c ∷ t) ≡ some (s, t)
unfolding split_once
split_once-whole c [] t h = ground (arith, eqb_iff c c)
split_once-whole c (d ∷ s) t h =
    rw (differs d c h.0) (
      ap (λ o. elim o [ none ↦ none | some (a, b) ↦ some (d ∷ a, b) ]) (split_once-whole c s t h.1))

split_once-none : (c : ℕ) (s : Text) → Without c s → split_once c s ≡ none
unfolding split_once
split_once-none c [] h = refl
split_once-none c (d ∷ s) h =
    rw (differs d c h.0)
      (ap (λ o. elim o [ none ↦ none | some (a, b) ↦ some (d ∷ a, b) ]) (split_once-none c s h.1))

-- A key read back: the method, the path and the query.
pub parse_target : Text → Text → Option (Text × Text) → Text × Text × Text
parse_target method target none = (method, target, [])
parse_target method target (some (path, query)) = (method, path, query)

pub parse_key : Option (Text × Text) → Option (Text × Text × Text)
parse_key none = none
parse_key (some (method, target)) = some (parse_target method target (split_once b'?' target))

abbrev pub HasKey : Text → Text × Text × Text → Type 0
HasKey key parts = parse_key (split_once b':' key) ≡ some parts

-- A key determines its request: cut at the first colon and at the first question mark, it gives the method, the path and the query.
pub make_key-parse_key :
    (method path query : Text)
    → Without b':' method
    → Without b'?' path
    → HasKey (make_key method path query) (method, path, query)
unfolding make_key parse_key parse_target
make_key-parse_key method path [] hm hp =
    rw (split_once-whole b':' method path hm) (rw (split_once-none b'?' path hp) refl)
make_key-parse_key method path (c ∷ query) hm hp =
    rw (split_once-whole b':' method (path ++ b'?' ∷ c ∷ query) hm)
      (rw (split_once-whole b'?' path (c ∷ query) hp) refl)

-- Two requests with one cache key have one method, one path and one query, if no method has a
-- colon and no path a question mark.
make_key_inj :
    (m n p q a b : Text)
    → Without b':' m
    → Without b':' n
    → Without b'?' p
    → Without b'?' q
    → make_key m p a ≡ make_key n q b
    → (m ≡ n) × (p ≡ q) × (a ≡ b)
make_key_inj m n p q a b hm hn hp hq e =
    let s = some_inj (
      sym (make_key-parse_key m p a hm hp)
      ∙ ap (λ k. parse_key (split_once b':' k)) e
      ∙ make_key-parse_key n q b hn hq) in
    (ap (λ t. t.0) s, ap (λ t. t.1) s, ap (λ t. t.2) s)
