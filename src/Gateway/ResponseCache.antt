-- ===== src/Gateway/ResponseCache.antt =====
-- src/gateway/cache.rs: the cache of responses. The map is `LruCache` of the crate `lru`, and stands as
-- an interface. An `Instant` is a number of nanoseconds. Texts are lower-cased as ASCII, as in the source.
pub mod Variants
pub mod Histories
pub mod Sharing
pub mod Keys
pub mod TwoEntries
mod Tests
use xira_net.Common.{
  ℕ, ◌-◌, ◌*◌, ◌≡◌, ◌⊎◌, Bool, true, false, not, ◌&&◌, ◌||◌, Option, none, some, List, [], ◌∷◌,
  ◌++◌, map, Text, codes, split, trim, to_ascii_lowercase, contains, ◌==◌, any, is_empty, ltb, leb,
  if◌then◌else◌, nat_eq, text_eq,
}

abbrev pub Headers : Type 0
Headers = List (Text × Text)

pub record CachedResponse : Type 0 where
  pub status : ℕ
  pub headers : Headers
  pub body : List ℕ
  pub cached_at : ℕ
  pub vary_on : List Text

-- What the source uses of `LruCache`: reading moves an entry to the front, and a full cache drops one.
pub record LruCache (C : Type 0) : Type 1 where
  pub peek : Text → C → Option CachedResponse
  pub promote : Text → C → C
  pub put : Text → CachedResponse → C → C
  pub pop : Text → C → C
  pub clear : C → C
  pub peek-promote : (j k : Text) (c : C) → peek j (promote k c) ≡ peek j c
  pub peek-put-self : (k : Text) (e : CachedResponse) (c : C) → peek k (put k e c) ≡ some e
  pub peek-put-other :
      (j k : Text) (e f : CachedResponse) (c : C)
      → peek j (put k e c) ≡ some f
      → (f ≡ e) ⊎ (peek j c ≡ some f)
  pub peek-pop :
      (j k : Text) (f : CachedResponse) (c : C) → peek j (pop k c) ≡ some f → peek j c ≡ some f
  pub peek-clear : (j : Text) (c : C) → peek j (clear c) ≡ none

pub record ResponseCache (C : Type 0) : Type 0 where
  pub cache : C
  pub ttl_secs : ℕ
  pub enabled : Bool

unfoldable pub eq_ignore_ascii_case : Text → Text → Bool
eq_ignore_ascii_case a b = to_ascii_lowercase a == to_ascii_lowercase b

-- `elapsed() >= Duration::from_secs(ttl_secs)`.
unfoldable pub is_expired : ℕ → ℕ → CachedResponse → Bool
is_expired now ttl_secs e = leb (ttl_secs * 1000000000) (now - e.cached_at)

-- The loop over the tokens of one `Vary` header.
unfoldable pub push_tokens : List Text → List Text → List Text
push_tokens out [] = out
push_tokens out (token ∷ tokens) =
    let t = to_ascii_lowercase (trim token) in
    push_tokens (if not (is_empty t) && not (any (λ o. o == t) out) then out ++ t ∷ [] else out)
      tokens

unfoldable pub extract_from : List Text → Headers → List Text
unfolding push_tokens eq_ignore_ascii_case
extract_from out [] = out
extract_from out ((k, v) ∷ headers) =
    extract_from
      (if eq_ignore_ascii_case k (codes "vary") then push_tokens out (split b',' v) else out)
      headers

unfoldable pub extract_vary : Headers → List Text
unfolding extract_from
extract_vary headers = extract_from [] headers

-- The first header of a name, or the empty text.
unfoldable pub header_value : Text → Headers → Text
unfolding eq_ignore_ascii_case
header_value name [] = []
header_value name ((k, v) ∷ headers) =
    if eq_ignore_ascii_case k name then v else header_value name headers

unfoldable pub join : Text → List Text → Text
join sep [] = []
join sep (x ∷ []) = x
join sep (x ∷ y ∷ xs) = x ++ sep ++ join sep (y ∷ xs)

unfoldable pub compute_vary_etag : List Text → Headers → Text
unfolding header_value join
compute_vary_etag vary_on headers =
    join (codes "|") (map (λ name. name ++ codes "=" ++ header_value name headers) vary_on)

-- A header for which a response is not kept.
unfoldable pub forbids : Text × Text → Bool
unfolding eq_ignore_ascii_case
forbids (k, v) =
    eq_ignore_ascii_case k (codes "cache-control")
      && (contains (to_ascii_lowercase v) (codes "no-store")
          || contains (to_ascii_lowercase v) (codes "private"))
    || eq_ignore_ascii_case k (codes "set-cookie")

-- The tests of `put` on a response.
unfoldable pub storable : ℕ → Headers → Bool
unfolding extract_vary forbids
storable status headers =
    let vary_on = extract_vary headers in
    leb 200 status
    && ltb status 300
    && not (any (λ v. v == codes "*") vary_on)
    && not (any (λ v. v == codes "cookie" || v == codes "authorization") vary_on)
    && not (any forbids headers)

abbrev pub entry_of : ℕ → ℕ → Headers → List ℕ → CachedResponse
entry_of now status headers body = record {
  status = status;
  headers = headers;
  body = body;
  cached_at = now;
  vary_on = extract_vary headers;
}

unfoldable pub make_key : Text → Text → Text → Text
make_key method path query =
    if is_empty query then method ++ b':' ∷ path else method ++ b':' ∷ (path ++ b'?' ∷ query)

abbrev pub Answer : Type 0
Answer = Option (ℕ × Headers × List ℕ)

abbrev pub answer : CachedResponse → Answer
answer e = some (e.status, e.headers, e.body)

unfoldable pub same_variant : CachedResponse → Headers → Bool
unfolding compute_vary_etag
same_variant e request_headers =
    is_empty e.vary_on
    || compute_vary_etag e.vary_on request_headers == compute_vary_etag e.vary_on e.headers

module _ {C : Type 0} (lru : LruCache C) where
  abbrev pub new : C → ℕ → Bool → ResponseCache C
  new empty ttl_secs enabled = record { cache = empty; ttl_secs = ttl_secs; enabled = enabled }

  unfoldable pub clear : ResponseCache C → ResponseCache C
  clear c = record c { cache = lru.clear c.cache }

  unfoldable pub set_enabled : Bool → ResponseCache C → ResponseCache C
  unfolding clear
  set_enabled true c = record c { enabled = true }
  set_enabled false c = clear (record c { enabled = false })

  unfoldable pub set_ttl_secs : ℕ → ResponseCache C → ResponseCache C
  set_ttl_secs ttl_secs c = record c { ttl_secs = ttl_secs }

  -- The body of `get` on what the map holds.
  unfoldable pub get_entry :
      ℕ → Text → Headers → ResponseCache C → Option CachedResponse → Answer × ResponseCache C
  unfolding is_expired same_variant
  get_entry now key request_headers c none = (none, c)
  get_entry now key request_headers c (some e) =
      let read = record c { cache = lru.promote key c.cache } in
      if is_expired now c.ttl_secs e
      then (none, record read { cache = lru.pop key read.cache })
      else if same_variant e request_headers
      then (answer e, read)
      else (none, read)

  unfoldable pub get : ℕ → Text → Headers → ResponseCache C → Answer × ResponseCache C
  unfolding get_entry
  get now key request_headers c =
      if not c.enabled
      then (none, c)
      else get_entry now key request_headers c (lru.peek key c.cache)

  unfoldable pub put : ℕ → Text → ℕ → Headers → List ℕ → ResponseCache C → ResponseCache C
  unfolding storable
  put now key status headers body c =
      if c.enabled && storable status headers
      then record c { cache = lru.put key (entry_of now status headers body) c.cache }
      else c
