-- ===== src/Gateway/EdgeCache/Validators.antt =====
-- A stored response and the client that has it already.
use xira_net.Common.{
  ℕ, ◌≤◌, ◌≡◌, refl, ap, ◌∙◌, ◌⊎◌, inl, inr, true, not, Option, some, List, arith, get,
  get-insert_self, Text, ==_iff, add64, ltb, if◌then◌else◌, Bool-cases, nat_eq, text_eq,
}
use xira_net.Gateway.EdgeCache.{
  EdgeCacheEntry, EdgeCache, not_modified, miss, quoted, matches_etag, check_entry, entry_of, check,
  make_room, store,
}

check-enabled :
    (now : ℕ) (key : Text) (inm : Option Text) (c : EdgeCache)
    → c.enabled ≡ true
    → check now key inm c ≡ check_entry now key inm c (get key c.entries)
unfolding check
check-enabled now key inm c on =
    ap (λ b. if not b then (miss, c) else check_entry now key inm c (get key c.entries)) on

check_entry-live :
    (now : ℕ) (key : Text) (inm : Option Text) (c : EdgeCache) (e : EdgeCacheEntry)
    → now ≤ add64 e.created_at e.ttl_secs
    → matches_etag inm e.etag ≡ true
    → (check_entry now key inm c (some e)).0 ≡ not_modified e.etag
unfolding check_entry
check_entry-live now key inm c e live known =
    elim (Bool-cases (ltb (add64 e.created_at e.ttl_secs) now)) [
      | inl late ↦ absurd (ground (arith, late, live))
      | inr on_time ↦ rw on_time (rw known refl)
    ]

matches_etag-shown :
    (client etag : Text)
    → (client ≡ etag) ⊎ (client ≡ quoted etag)
    → matches_etag (some client) etag ≡ true
matches_etag-shown client etag (inl bare) = ground (arith, ==_iff client etag, bare)
matches_etag-shown client etag (inr in_quotes) =
    ground (arith, ==_iff client (quoted etag), in_quotes)

module _ (digest : List ℕ → Text) where
  -- A client that shows the validator which store returned is told, while the entry lives, that nothing has changed, in quotes or without.
  check-store :
      (now later : ℕ) (key : Text) (body : List ℕ) (content_type : Text) (status : ℕ)
      (headers : List (Text × Text)) (ttl : ℕ) (c : EdgeCache) (client : Text)
      → c.enabled ≡ true
      → later ≤ add64 now ttl
      → (client ≡ (store digest now key body content_type status headers ttl c).0)
        ⊎ (client ≡ quoted (store digest now key body content_type status headers ttl c).0)
      → (check later key
          (some client)
          (store digest now key body content_type status headers ttl c).1).0
        ≡ not_modified (digest body)
  unfolding store
  check-store now later key body content_type status headers ttl c client on live shown =
      ap (λ p. p.0) (check-enabled later key (some client) c' on)
      ∙ ap (λ o. (check_entry later key (some client) c' o).0) (get-insert_self key e (make_room c))
      ∙ check_entry-live later key (some client) c' e live
          (matches_etag-shown client (digest body) shown)
    where
      e : EdgeCacheEntry
      e = entry_of digest now body content_type status headers ttl

      c' : EdgeCache
      c' = (store digest now key body content_type status headers ttl c).1
