-- ===== src/Gateway/ResponseCache/Sharing.antt =====
-- Only what may be shared is kept and answered.
use xira_net.Common.{
  ℕ, ◌-◌, ◌*◌, ◌<◌, ◌≡◌, refl, sym, ap, ◌∙◌, inl, inr, true, false, Option, none, some, List, arith,
  Text, if◌then◌else◌, Bool-cases, and-intro, nat_eq, text_eq,
}
use xira_net.Gateway.ResponseCache.{
  Headers, CachedResponse, LruCache, ResponseCache, is_expired, storable, same_variant, answer,
  entry_of, get_entry, get, put,
}
use xira_net.Gateway.ResponseCache.Histories.{get-on, get-off}

module _ {C : Type 0} (lru : LruCache C) where
  -- What a hit needs: an entry under the key that is not expired, for a request that agrees with it on what it varies on.
  abbrev pub Hit : ℕ → Text → Headers → ResponseCache C → CachedResponse → Type 0
  Hit now key rh c e =
      (lru.peek key c.cache ≡ some e)
      × (c.enabled ≡ true)
      × (is_expired now c.ttl_secs e ≡ false)
      × (same_variant e rh ≡ true)

  get_entry-hit :
      (now : ℕ) (key : Text) (rh : Headers) (c : ResponseCache C) (o : Option CachedResponse)
      (a : ℕ × Headers × List ℕ)
      → (get_entry lru now key rh c o).0 ≡ some a
      → (e : CachedResponse) × (o ≡ some e)
        × (some a ≡ answer e)
        × (is_expired now c.ttl_secs e ≡ false)
        × (same_variant e rh ≡ true)
  unfolding get_entry
  get_entry-hit now key rh c none a h = absurd (ground (arith, h))
  get_entry-hit now key rh c (some e) a h = elim (Bool-cases (is_expired now c.ttl_secs e)) [
    | inl x ↦ absurd (missed (rw x at h))
    | inr n ↦ elim (Bool-cases (same_variant e rh)) [
      | inl v ↦ (e, refl, sym (rw v at (rw n at h)), n, v)
      | inr v ↦ absurd (missed (rw v at (rw n at h)))
    ]
  ]
    where
      missed : none ≡ some a → ⊥
      missed q = ground (arith, q)

  pub get-Hit :
      (now : ℕ) (key : Text) (rh : Headers) (c : ResponseCache C) (a : ℕ × Headers × List ℕ)
      → (get lru now key rh c).0 ≡ some a
      → (e : CachedResponse) × (some a ≡ answer e) × Hit now key rh c e
  get-Hit now key rh c a h = elim (Bool-cases c.enabled) [
    | inl on ↦
        let r =
          get_entry-hit now key rh c (lru.peek key c.cache) a
            (sym (ap (λ p. p.0) (get-on lru now key rh c on)) ∙ h) in
        (r.0, r.2, (r.1, on, r.3, r.4))
    | inr off ↦ absurd (none≢some (sym (ap (λ p. p.0) (get-off lru now key rh c off)) ∙ h))
  ]
    where
      none≢some : none ≡ some a → ⊥
      none≢some q = ground (arith, q)

  get_entry-found :
      (now : ℕ) (key : Text) (rh : Headers) (c : ResponseCache C) (e : CachedResponse)
      → is_expired now c.ttl_secs e ≡ false
      → same_variant e rh ≡ true
      → (get_entry lru now key rh c (some e)).0 ≡ answer e
  unfolding get_entry
  get_entry-found now key rh c e n v = rw n (rw v refl)

  put-stores :
      (now : ℕ) (key : Text) (status : ℕ) (headers : Headers) (body : List ℕ) (c : ResponseCache C)
      → c.enabled ≡ true
      → storable status headers ≡ true
      → put lru now key status headers body c
        ≡ record c { cache = lru.put key (entry_of now status headers body) c.cache }
  unfolding put
  put-stores now key status headers body c on s =
      ap
        (λ b.
          if b
          then record c { cache = lru.put key (entry_of now status headers body) c.cache }
          else c)
        (and-intro c.enabled (storable status headers) on s)

  -- With the cache on, a response that may be kept and was put in is the answer until its time
  -- is up, to a request that agrees with it on what it varies on.
  pub get-put :
      (stored_at now : ℕ) (key : Text) (status : ℕ) (headers rh : Headers) (body : List ℕ)
      (c : ResponseCache C)
      → c.enabled ≡ true
      → storable status headers ≡ true
      → now - stored_at < c.ttl_secs * 1000000000
      → same_variant (entry_of stored_at status headers body) rh ≡ true
      → (get lru now key rh (put lru stored_at key status headers body c)).0
        ≡ some (status, headers, body)
  unfolding is_expired
  get-put stored_at now key status headers rh body c on s fresh v =
      let e = entry_of stored_at status headers body in
      let kept = record c { cache = lru.put key e c.cache } in
      ap (λ d. (get lru now key rh d).0) (put-stores stored_at key status headers body c on s)
      ∙ ap (λ p. p.0) (get-on lru now key rh kept on)
      ∙ ap (λ o. (get_entry lru now key rh kept o).0) (lru.peek-put-self key e c.cache)
      ∙ get_entry-found now key rh kept e (ground (arith, fresh)) v
