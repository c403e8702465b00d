-- ===== src/Gateway/Exchange/Private.antt =====
-- The headers that keep a request from the cache.
use xira_net.Common.{
  ◌≡◌, sym, ap, subst, ◌⊎◌, inl, inr, Bool, true, false, not, ◌&&◌, ◌||◌, Option, some, List, [],
  ◌∷◌, arith, Text, codes, to_ascii_lowercase, contains, ◌==◌, ==_iff, any, In, nat_eq, text_eq,
}
use xira_net.Gateway.Exchange.{
  Request, request_is_cacheable, private_header, cache_control_disables_storage, disables,
}

abbrev pub private_names : List Text
private_names =
    codes "authorization"
    ∷ codes "cookie"
    ∷ codes "proxy-authorization"
    ∷ codes "x-api-key"
    ∷ codes "upgrade"
    ∷ codes "range"
    ∷ []

-- A header of one of these names, in any case of its letters, or a Cache-Control against keeping.
abbrev pub IsPrivate : Text × Option Text → Type 0
IsPrivate (name, value) =
    In (to_ascii_lowercase name) private_names
    ⊎ ((to_ascii_lowercase name ≡ codes "cache-control")
        × ((v : Text) × (value ≡ some v)
            × ((word : Text) × In word (codes "no-store" ∷ codes "private" ∷ codes "no-cache" ∷ [])
                × (contains (to_ascii_lowercase v) word ≡ true))))

In-any : (a : Text) (xs : List Text) → In a xs → any (λ n. a == n) xs ≡ true
In-any a [] h = absurd h
In-any a (x ∷ xs) (inl e) = ground (arith, ==_iff a x, e)
In-any a (x ∷ xs) (inr h) = ground (arith, In-any a xs h)

disables-storage :
    (v word : Text)
    → In word (codes "no-store" ∷ codes "private" ∷ codes "no-cache" ∷ [])
    → contains (to_ascii_lowercase v) word ≡ true
    → cache_control_disables_storage v ≡ true
unfolding cache_control_disables_storage
disables-storage v word (inl e) h =
    ground (arith, subst (λ w. contains (to_ascii_lowercase v) w ≡ true) (sym e) h)
disables-storage v word (inr (inl e)) h =
    ground (arith, subst (λ w. contains (to_ascii_lowercase v) w ≡ true) (sym e) h)
disables-storage v word (inr (inr (inl e))) h =
    ground (arith, subst (λ w. contains (to_ascii_lowercase v) w ≡ true) (sym e) h)
disables-storage v word (inr (inr (inr e))) h = absurd e

or-left : (a b : Bool) → a ≡ true → (a || b) ≡ true
or-left a b h = ground (arith, h)

or-right : (a b c : Bool) → b ≡ true → c ≡ true → (a || b && c) ≡ true
or-right a b c h k = ground (arith, h, k)

IsPrivate-private_header :
    (header : Text × Option Text) → IsPrivate header → private_header header ≡ true
unfolding private_header
IsPrivate-private_header (name, value) (inl h) =
    or-left _ _ (In-any (to_ascii_lowercase name) private_names h)
IsPrivate-private_header (name, value) (inr (n, (v, e, (word, known, h)))) =
    or-right _ _ _ (ground (arith, ==_iff (to_ascii_lowercase name) (codes "cache-control"), n))
      (subst (λ o. disables o ≡ true) (sym e) (disables-storage v word known h))

any-private :
    (header : Text × Option Text) (hs : List (Text × Option Text))
    → In header hs
    → private_header header ≡ true
    → any private_header hs ≡ true
any-private header [] h p = absurd h
any-private header (x ∷ hs) (inl e) p =
    or-left (private_header x) (any private_header hs)
      (subst (λ y. private_header y ≡ true) (sym e) p)
any-private header (x ∷ hs) (inr h) p = ground (arith, any-private header hs h p)

pub header-private :
    (header : Text × Option Text) (req : Request)
    → In header req.headers
    → IsPrivate header
    → request_is_cacheable req ≡ false
unfolding request_is_cacheable
header-private header req has p =
    ap not (any-private header req.headers has (IsPrivate-private_header header p))
