-- ===== src/Gateway/EdgeCache.antt =====
-- src/gateway/edge_cache.rs: whole responses with a validator and a life. The digest behind a validator
-- is a parameter; times, in seconds of 64 bits, are arguments. The oldest entry of a `DashMap` is the
-- first one of the least time in the order of its entries, which is that of the list.
pub mod Bound
pub mod Validators
mod Tests
use xira_net.Common.{
  ℕ, Bool, true, false, not, ◌||◌, Option, none, some, List, [], ◌∷◌, ◌++◌, Dict, get, insert,
  remove, Text, codes, ◌==◌, length, add64, ltb, leb, if◌then◌else◌, nat_eq, text_eq,
}

pub record EdgeCacheEntry : Type 0 where
  pub etag : Text
  pub body : List ℕ
  pub content_type : Text
  pub status : ℕ
  pub headers : List (Text × Text)
  pub created_at : ℕ
  pub ttl_secs : ℕ
  pub hits : ℕ  -- u64

pub data CacheDecision : Type 0 where
  hit : EdgeCacheEntry → CacheDecision
  not_modified : Text → CacheDecision
  miss : CacheDecision

pub record EdgeCache : Type 0 where
  pub entries : Dict Text EdgeCacheEntry
  pub max_entries : ℕ
  pub enabled : Bool

abbrev pub new : ℕ → Bool → EdgeCache
new max_entries enabled = record { entries = []; max_entries = max_entries; enabled = enabled }

abbrev pub quoted : Text → Text
quoted etag = codes "\"" ++ (etag ++ codes "\"")

abbrev pub matches_etag : Option Text → Text → Bool
matches_etag none etag = false
matches_etag (some client) etag = client == etag || client == quoted etag

abbrev pub counted : EdgeCacheEntry → EdgeCacheEntry
counted entry = record entry { hits = add64 entry.hits 1 }

abbrev pub decision : Option Text → EdgeCacheEntry → CacheDecision
decision if_none_match entry =
    if matches_etag if_none_match entry.etag then not_modified entry.etag else hit entry

unfoldable pub check_entry :
    ℕ → Text → Option Text → EdgeCache → Option EdgeCacheEntry → CacheDecision × EdgeCache
check_entry now key if_none_match c none = (miss, c)
check_entry now key if_none_match c (some entry) =
    if ltb (add64 entry.created_at entry.ttl_secs) now
    then (miss, record c { entries = remove key c.entries })
    else (
      decision if_none_match (counted entry),
      record c { entries = insert key (counted entry) c.entries },
    )

unfoldable pub check : ℕ → Text → Option Text → EdgeCache → CacheDecision × EdgeCache
unfolding check_entry
check now key if_none_match c =
    if not c.enabled then (miss, c) else check_entry now key if_none_match c (get key c.entries)

unfoldable pub oldest_from : Text → ℕ → Dict Text EdgeCacheEntry → Text
oldest_from key at [] = key
oldest_from key at ((k, e) ∷ m) =
    let later = oldest_from key at m in
    let sooner = oldest_from k e.created_at m in if ltb e.created_at at then sooner else later

unfoldable pub without_oldest : Dict Text EdgeCacheEntry → Dict Text EdgeCacheEntry
unfolding oldest_from
without_oldest [] = []
without_oldest ((k, e) ∷ m) = remove (oldest_from k e.created_at m) ((k, e) ∷ m)

abbrev pub make_room : EdgeCache → Dict Text EdgeCacheEntry
make_room c = if leb c.max_entries (length c.entries) then without_oldest c.entries else c.entries

module _ (digest : List ℕ → Text) where
  abbrev pub entry_of : ℕ → List ℕ → Text → ℕ → List (Text × Text) → ℕ → EdgeCacheEntry
  entry_of now body content_type status headers ttl_secs = record {
    etag = digest body;
    body = body;
    content_type = content_type;
    status = status;
    headers = headers;
    created_at = now;
    ttl_secs = ttl_secs;
    hits = 0;
  }

  unfoldable pub store :
      ℕ → Text → List ℕ → Text → ℕ → List (Text × Text) → ℕ → EdgeCache → Text × EdgeCache
  store now key body content_type status headers ttl_secs c = (
    digest body,
    record c {
      entries = insert key (entry_of now body content_type status headers ttl_secs) (make_room c);
    },
  )

unfoldable pub clear : EdgeCache → EdgeCache
clear c = record c { entries = [] }
