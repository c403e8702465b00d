-- ===== src/Gateway/ResponseCache/Histories.antt =====
-- What the operations keep true of a cache: only what may be shared is in it.
use xira_net.Common.{
  ℕ, ◌≡◌, refl, sym, ap, ◌∙◌, subst, inl, inr, Bool, true, false, not, ◌&&◌, Option, none, some,
  List, [], ◌∷◌, arith, Text, if◌then◌else◌, Bool-cases, and-first, and-second, nat_eq, text_eq,
}
use xira_net.Gateway.ResponseCache.{
  Headers, CachedResponse, LruCache, ResponseCache, is_expired, extract_vary, storable,
  same_variant, entry_of, new, clear, set_enabled, set_ttl_secs, get_entry, get, put,
}

-- An entry that passed the tests of `put`.
abbrev pub IsShareable : CachedResponse → Type 0
IsShareable e = (storable e.status e.headers ≡ true) × (e.vary_on ≡ extract_vary e.headers)

module _ {C : Type 0} (lru : LruCache C) where
  -- Every entry may be shared, and a cache that is off has none.
  pub record Inv (c : ResponseCache C) : Type 0 where
    pub shareable : (k : Text) (e : CachedResponse) → lru.peek k c.cache ≡ some e → IsShareable e
    pub off_empty : c.enabled ≡ false → (k : Text) → lru.peek k c.cache ≡ none

  pub data Op : Type 0 where
    op_get : (now : ℕ) (key : Text) (request_headers : Headers) → Op
    op_put : (now : ℕ) (key : Text) (status : ℕ) (headers : Headers) (body : List ℕ) → Op
    op_set_enabled : Bool → Op
    op_set_ttl_secs : ℕ → Op
    op_clear : Op

  unfoldable pub apply : Op → ResponseCache C → ResponseCache C
  apply (op_get now key request_headers) c = (get lru now key request_headers c).1
  apply (op_put now key status headers body) c = put lru now key status headers body c
  apply (op_set_enabled b) c = set_enabled lru b c
  apply (op_set_ttl_secs n) c = set_ttl_secs lru n c
  apply op_clear c = clear lru c

  unfoldable pub run : List Op → ResponseCache C → ResponseCache C
  unfolding apply
  run [] c = c
  run (op ∷ ops) c = run ops (apply op c)

  clear-Inv :
      (c : ResponseCache C) (b : Bool) → Inv (record c { cache = lru.clear c.cache; enabled = b })
  clear-Inv c b = record {
    shareable = λ k e h. absurd (ground (arith, lru.peek-clear k c.cache, h));
    off_empty = λ off k. lru.peek-clear k c.cache;
  }

  get_entry-Inv :
      (now : ℕ) (key : Text) (rh : Headers) (c : ResponseCache C) (o : Option CachedResponse)
      → c.enabled ≡ true
      → Inv c
      → Inv (get_entry lru now key rh c o).1
  unfolding get_entry
  get_entry-Inv now key rh c none on inv = inv
  get_entry-Inv now key rh c (some e) on inv = elim (Bool-cases (is_expired now c.ttl_secs e)) [
    | inl x ↦ rw x (record {
      shareable = λ k f h.
          inv.shareable k f (promoted k f (lru.peek-pop k key f (lru.promote key c.cache) h));
      off_empty = λ off. absurd (ground (arith, on, off));
    })
    | inr n ↦ elim (Bool-cases (same_variant e rh)) [
      | inl v ↦ rw n (rw v kept)
      | inr v ↦ rw n (rw v kept)
    ]
  ]
    where
      promoted :
          (k : Text) (f : CachedResponse)
          → lru.peek k (lru.promote key c.cache) ≡ some f
          → lru.peek k c.cache ≡ some f
      promoted k f h = sym (lru.peek-promote k key c.cache) ∙ h

      kept : Inv (record c { cache = lru.promote key c.cache })
      kept = record {
        shareable = λ k f h. inv.shareable k f (promoted k f h);
        off_empty = λ off k. absurd (ground (arith, on, off));
      }

  -- Both branches of a test, with what each may use.
  branch-Inv :
      (b : Bool) (x y : ResponseCache C)
      → (b ≡ true → Inv x)
      → (b ≡ false → Inv y)
      → Inv (if b then x else y)
  branch-Inv true x y f g = f refl
  branch-Inv false x y f g = g refl

  pub get-off :
      (now : ℕ) (key : Text) (rh : Headers) (c : ResponseCache C)
      → c.enabled ≡ false
      → get lru now key rh c ≡ (none, c)
  unfolding get
  get-off now key rh c off =
      ap (λ b. if not b then (none, c) else get_entry lru now key rh c (lru.peek key c.cache)) off

  pub get-on :
      (now : ℕ) (key : Text) (rh : Headers) (c : ResponseCache C)
      → c.enabled ≡ true
      → get lru now key rh c ≡ get_entry lru now key rh c (lru.peek key c.cache)
  unfolding get
  get-on now key rh c on =
      ap (λ b. if not b then (none, c) else get_entry lru now key rh c (lru.peek key c.cache)) on

  pub get-Inv :
      (now : ℕ) (key : Text) (rh : Headers) (c : ResponseCache C)
      → Inv c
      → Inv (get lru now key rh c).1
  get-Inv now key rh c inv = elim (Bool-cases c.enabled) [
    | inl on ↦
        subst (λ p. Inv p.1) (sym (get-on now key rh c on))
          (get_entry-Inv now key rh c (lru.peek key c.cache) on inv)
    | inr off ↦ subst (λ p. Inv p.1) (sym (get-off now key rh c off)) inv
  ]

  pub put-Inv :
      (now : ℕ) (key : Text) (status : ℕ) (headers : Headers) (body : List ℕ) (c : ResponseCache C)
      → Inv c
      → Inv (put lru now key status headers body c)
  unfolding put
  put-Inv now key status headers body c inv =
      branch-Inv (c.enabled && storable status headers) _ c
        (λ s. record {
          shareable = λ k f h.
              elim (lru.peek-put-other k key (entry_of now status headers body) f c.cache h) [
                | inl e ↦ rw e (and-second c.enabled (storable status headers) s, refl)
                | inr old ↦ inv.shareable k f old
              ];
          off_empty =
              λ off. absurd (ground (arith, and-first c.enabled (storable status headers) s, off));
        })
        (λ n. inv)

  apply-Inv : (op : Op) (c : ResponseCache C) → Inv c → Inv (apply op c)
  unfolding apply set_enabled clear set_ttl_secs
  apply-Inv (op_get now key rh) c inv = get-Inv now key rh c inv
  apply-Inv (op_put now key status headers body) c inv = put-Inv now key status headers body c inv
  apply-Inv (op_set_enabled true) c inv = record {
    shareable = inv.shareable;
    off_empty = λ off. absurd (ground (arith, off));
  }
  apply-Inv (op_set_enabled false) c inv = clear-Inv c false
  apply-Inv (op_set_ttl_secs n) c inv = record {
    shareable = inv.shareable;
    off_empty = inv.off_empty;
  }
  apply-Inv op_clear c inv = clear-Inv c c.enabled

  pub run-Inv : (ops : List Op) (c : ResponseCache C) → Inv c → Inv (run ops c)
  unfolding run
  run-Inv [] c inv = inv
  run-Inv (op ∷ ops) c inv = run-Inv ops (apply op c) (apply-Inv op c inv)

  pub new-Inv :
      (empty : C) (ttl : ℕ) (b : Bool)
      → ((k : Text) → lru.peek k empty ≡ none)
      → Inv (new lru empty ttl b)
  new-Inv empty ttl b h = record {
    shareable = λ k e p. absurd (ground (arith, h k, p));
    off_empty = λ off. h;
  }
