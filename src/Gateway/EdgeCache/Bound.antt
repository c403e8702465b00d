-- ===== src/Gateway/EdgeCache/Bound.antt =====
-- The size of the edge cache.
use xira_net.Common.{
  ℕ, ◌+◌, ◌≤◌, ◌<◌, ◌≡◌, refl, sym, ap, ◌∙◌, subst, ◌⊎◌, inl, inr, Bool, not, Option, none, some,
  List, [], ◌∷◌, arith, Dict, get, insert, length-remove-le, Holds, Holds-head, Holds-tail,
  length-remove-lt, Text, length, add64, ltb, leb, if◌then◌else◌, leb→le, Bool-cases, is_some,
  nat_eq, text_eq,
}
use xira_net.Gateway.EdgeCache.{
  EdgeCacheEntry, EdgeCache, miss, new, check_entry, entry_of, check, oldest_from, without_oldest,
  make_room, store, clear,
}

oldest_from-Holds :
    (k : Text) (t : ℕ) (m : Dict Text EdgeCacheEntry)
    → (oldest_from k t m ≡ k) ⊎ Holds (oldest_from k t m) m
unfolding oldest_from
oldest_from-Holds k t [] = inl refl
oldest_from-Holds k t ((i, e) ∷ m) = elim (Bool-cases (ltb e.created_at t)) [
  | inl sooner ↦ rw sooner (
      inr (elim (oldest_from-Holds i e.created_at m) [
        | inl same ↦ subst (λ x. Holds x ((i, e) ∷ m)) (sym same) (Holds-head i e m)
        | inr found ↦ Holds-tail (oldest_from i e.created_at m) i e m found
      ]))
  | inr later ↦ rw later (elim (oldest_from-Holds k t m) [
    | inl same ↦ inl same
    | inr found ↦ inr (Holds-tail (oldest_from k t m) i e m found)
  ])
]

length-without_oldest :
    (m : Dict Text EdgeCacheEntry) → 0 < length m → length (without_oldest m) < length m
unfolding without_oldest
length-without_oldest [] h = absurd (omega (arith, h))
length-without_oldest ((k, e) ∷ m) h =
    length-remove-lt (oldest_from k e.created_at m) ((k, e) ∷ m)
      (elim (oldest_from-Holds k e.created_at m) [
        | inl same ↦ subst (λ x. Holds x ((k, e) ∷ m)) (sym same) (Holds-head k e m)
        | inr found ↦ Holds-tail (oldest_from k e.created_at m) k e m found
      ])

abbrev pub Fits : EdgeCache → Type 0
Fits c = length c.entries ≤ c.max_entries

length-make_room :
    (c : EdgeCache) → 0 < c.max_entries → Fits c → length (make_room c) < c.max_entries
length-make_room c pos fits = elim (Bool-cases (leb c.max_entries (length c.entries))) [
  | inl full ↦ rw full (
      omega (
        arith,
        fits,
        length-without_oldest c.entries
            (omega (arith, pos, leb→le c.max_entries (length c.entries) full)),
      ))
  | inr room ↦ rw room (ground (arith, room))
]

length-insert-le :
    (k : Text) (e : EdgeCacheEntry) (m : Dict Text EdgeCacheEntry)
    → length (insert k e m) ≤ 1 + length m
unfolding insert
length-insert-le k e m = omega (arith, length-remove-le k m)

check_entry-Fits :
    (now : ℕ) (key : Text) (inm : Option Text) (c : EdgeCache) (o : Option EdgeCacheEntry)
    → get key c.entries ≡ o
    → Fits c
    → Fits (check_entry now key inm c o).1
unfolding check_entry insert
check_entry-Fits now key inm c none h fits = fits
check_entry-Fits now key inm c (some e) h fits =
    elim (Bool-cases (ltb (add64 e.created_at e.ttl_secs) now)) [
      | inl late ↦ rw late (omega (arith, fits, length-remove-le key c.entries))
      | inr live ↦ rw live (omega (arith, fits, length-remove-lt key c.entries (ap is_some h)))
    ]

check-Fits :
    (now : ℕ) (key : Text) (inm : Option Text) (c : EdgeCache)
    → Fits c
    → Fits (check now key inm c).1
unfolding check
check-Fits now key inm c fits = elim (Bool-cases c.enabled) [
  | inl on ↦
      subst
        (λ b. Fits (if not b then (miss, c) else check_entry now key inm c (get key c.entries)).1)
        (sym on) (check_entry-Fits now key inm c (get key c.entries) refl fits)
  | inr off ↦
      subst
        (λ b. Fits (if not b then (miss, c) else check_entry now key inm c (get key c.entries)).1)
        (sym off) fits
]

check_entry-max_entries :
    (now : ℕ) (key : Text) (inm : Option Text) (c : EdgeCache) (o : Option EdgeCacheEntry)
    → (check_entry now key inm c o).1.max_entries ≡ c.max_entries
unfolding check_entry
check_entry-max_entries now key inm c none = refl
check_entry-max_entries now key inm c (some e) =
    elim (Bool-cases (ltb (add64 e.created_at e.ttl_secs) now)) [
      | inl late ↦ rw late refl
      | inr live ↦ rw live refl
    ]

module _ (digest : List ℕ → Text) where
  pub data Call : Type 0 where
    checks : ℕ → Text → Option Text → Call
    stores : ℕ → Text → List ℕ → Text → ℕ → List (Text × Text) → ℕ → Call
    clears : Call

  abbrev pub call : Call → EdgeCache → EdgeCache
  call (checks now key inm) c = (check now key inm c).1
  call (stores now key body content_type status headers ttl) c =
      (store digest now key body content_type status headers ttl c).1
  call clears c = clear c

  abbrev pub calls : List Call → EdgeCache → EdgeCache
  calls [] c = c
  calls (x ∷ xs) c = calls xs (call x c)

  store-Fits :
      (now : ℕ) (key : Text) (body : List ℕ) (content_type : Text) (status : ℕ)
      (headers : List (Text × Text)) (ttl : ℕ) (c : EdgeCache)
      → 0 < c.max_entries
      → Fits c
      → Fits (store digest now key body content_type status headers ttl c).1
  unfolding store
  store-Fits now key body content_type status headers ttl c pos fits = omega (
    arith,
    length-insert-le key (entry_of digest now body content_type status headers ttl) (make_room c),
    length-make_room c pos fits,
  )

  check-max_entries :
      (now : ℕ) (key : Text) (inm : Option Text) (c : EdgeCache)
      → (check now key inm c).1.max_entries ≡ c.max_entries
  unfolding check
  check-max_entries now key inm c = elim (Bool-cases c.enabled) [
    | inl on ↦
        ap
          (λ b.
            (if not b
              then (miss, c)
              else check_entry now key inm c (get key c.entries)).1.max_entries)
          on
        ∙ check_entry-max_entries now key inm c (get key c.entries)
    | inr off ↦
        ap
          (λ b.
            (if not b
              then (miss, c)
              else check_entry now key inm c (get key c.entries)).1.max_entries)
          off
  ]

  calls-Fits :
      (xs : List Call) (c : EdgeCache)
      → 0 < c.max_entries
      → Fits c
      → length (calls xs c).entries ≤ c.max_entries
  unfolding store clear
  calls-Fits [] c pos fits = fits
  calls-Fits (checks now key inm ∷ xs) c pos fits =
      subst (λ n. length (calls xs (check now key inm c).1).entries ≤ n)
        (check-max_entries now key inm c)
        (calls-Fits xs (check now key inm c).1
          (subst (λ n. 0 < n) (sym (check-max_entries now key inm c)) pos)
          (check-Fits now key inm c fits))
  calls-Fits (stores now key body content_type status headers ttl ∷ xs) c pos fits =
      calls-Fits xs (store digest now key body content_type status headers ttl c).1 pos
        (store-Fits now key body content_type status headers ttl c pos fits)
  calls-Fits (clears ∷ xs) c pos fits = calls-Fits xs (clear c) pos (omega (arith, pos))

  -- Whatever is asked for, stored or cleared, a cache that began empty never holds more entries
  -- than its cap, if the cap is not zero.
  pub calls-new-le :
      (max_entries : ℕ) (enabled : Bool) (xs : List Call)
      → 0 < max_entries
      → length (calls xs (new max_entries enabled)).entries ≤ max_entries
  calls-new-le max_entries enabled xs pos =
      calls-Fits xs (new max_entries enabled) pos (omega arith)
