-- ===== src/Gateway/ResponseCache/Tests.antt =====
-- Runs of the response cache, and its theorems at concrete responses.
use xira_net.Common.{
  ◌≡◌, refl, true, false, some, List, [], ◌∷◌, arith, get, insert, codes, split_from, split, trim,
  to_ascii_lowercase, nat_eq, text_eq,
}
use xira_net.Gateway.ResponseCache
use xira_net.Gateway.ResponseCache.{
  Headers, ResponseCache, is_expired, storable, same_variant, entry_of, make_key, extract_vary,
  extract_from, push_tokens, eq_ignore_ascii_case, forbids, new, put, get_entry,
}
use xira_net.Gateway.ResponseCache.Histories.{Op, op_put, op_set_ttl_secs, apply, run}
use xira_net.Gateway.ResponseCache.Sharing.{get-put}
use xira_net.Gateway.ResponseCache.TwoEntries.{Entries, two_entries}

abbrev plain_headers : Headers
plain_headers = (codes "Content-Type", codes "text/plain") ∷ []

cookies_not_kept : storable 200 ((codes "Set-Cookie", codes "a=b") ∷ []) ≡ false
unfolding storable extract_vary extract_from push_tokens eq_ignore_ascii_case forbids
    to_ascii_lowercase trim
cookies_not_kept = refl

varying_on_cookie_not_kept : storable 200 ((codes "Vary", codes "Accept, Cookie") ∷ []) ≡ false
unfolding storable extract_vary extract_from push_tokens eq_ignore_ascii_case forbids
    to_ascii_lowercase trim split split_from
varying_on_cookie_not_kept = refl

plain_kept : storable 200 plain_headers ≡ true
unfolding storable extract_vary extract_from push_tokens eq_ignore_ascii_case forbids
    to_ascii_lowercase trim
plain_kept = refl

same_plain : same_variant (entry_of 5 200 plain_headers (7 ∷ [])) [] ≡ true
unfolding same_variant extract_vary extract_from push_tokens eq_ignore_ascii_case to_ascii_lowercase
same_plain = refl

abbrev sample : ResponseCache Entries
sample = record { cache = []; ttl_secs = 60; enabled = true }

get-put_example :
    (ResponseCache.get two_entries 9
      (codes "GET:/a")
      []
      (put two_entries 5 (codes "GET:/a") 200 plain_headers (7 ∷ []) sample)).0
    ≡ some (200, plain_headers, 7 ∷ [])
get-put_example =
    get-put two_entries 5 9 (codes "GET:/a") 200 plain_headers [] (7 ∷ []) sample refl plain_kept
      (omega arith) same_plain

abbrev one_put : List (Op two_entries)
one_put = op_put 5 (codes "GET:/a") 200 plain_headers (7 ∷ []) ∷ op_set_ttl_secs 30 ∷ []

one_put_hits :
    (ResponseCache.get two_entries 9
      (codes "GET:/a")
      []
      (run two_entries one_put (new two_entries [] 60 true))).0
    ≡ some (200, plain_headers, 7 ∷ [])
unfolding ResponseCache.get ResponseCache.set_ttl_secs get insert run apply put storable
    extract_vary extract_from push_tokens eq_ignore_ascii_case forbids to_ascii_lowercase trim
    get_entry same_variant is_expired
one_put_hits = refl

-- The answer varies on the language, and says which one it is in.
abbrev english : Headers
english = (codes "Vary", codes "Accept-Language") ∷ (codes "Accept-Language", codes "en") ∷ []

abbrev put_english : List (Op two_entries)
put_english = op_put 5 (codes "GET:/a") 200 english (7 ∷ []) ∷ op_set_ttl_secs 90 ∷ []

abbrev asks_english : Headers
asks_english = (codes "accept-language", codes "en") ∷ []
