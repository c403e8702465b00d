-- ===== src/Gateway/ResponseCache/TwoEntries.antt =====
-- A cache of two entries that keeps what is assumed of `LruCache`, for the tests.
use xira_net.Common.{
  ℕ, zero, suc, ◌≡◌, refl, sym, ◌∙◌, ◌⊎◌, inl, inr, none, some, [], ◌∷◌, arith, Dict, get, remove,
  insert, get-remove, inserted, Text, ◌==◌, ==_refl, take, Bool-cases, nat_eq, text_eq,
}
use xira_net.Gateway.ResponseCache.{CachedResponse, LruCache}

abbrev pub Entries : Type 0
Entries = Dict Text CachedResponse

pub get-take :
    (n : ℕ) (j : Text) (f : CachedResponse) (m : Entries)
    → get j (take n m) ≡ some f
    → get j m ≡ some f
unfolding get
get-take zero j f m h = absurd (ground (arith, h))
get-take (suc n) j f [] h = h
get-take (suc n) j f ((k, e) ∷ m) h = elim (Bool-cases (k == j)) [
  | inl s ↦ rw s (rw s at h)
  | inr o ↦ rw o (get-take n j f m (rw o at h))
]

pub get-first :
    (k : Text) (e : CachedResponse) (m : Entries) → get k (take 2 (insert k e m)) ≡ some e
unfolding get insert
get-first k e m = rw (==_refl k) refl

pub old_or_new :
    (j k : Text) (e f : CachedResponse) (m : Entries)
    → get j (insert k e m) ≡ some f
    → (f ≡ e) ⊎ (get j m ≡ some f)
old_or_new j k e f m h = elim (inserted k j e f m h) [ inl s ↦ inl (sym s.1) | inr o ↦ inr o.1 ]

pub still_there :
    (j k : Text) (f : CachedResponse) (m : Entries) → get j (remove k m) ≡ some f → get j m ≡ some f
still_there j k f m h = elim (Bool-cases (k == j)) [
  | inl s ↦ absurd (gone (sym (get-remove k j m ∙ rw s refl) ∙ h))
  | inr o ↦ sym (get-remove k j m ∙ rw o refl) ∙ h
]
  where
    gone : none ≡ some f → ⊥
    gone q = ground (arith, q)

pub get-nil : (j : Text) → get {V = CachedResponse} j [] ≡ none
unfolding get
get-nil j = refl

abbrev pub two_entries : LruCache Entries
two_entries = record {
  peek = get;
  promote = λ k m. m;
  put = λ k e m. take 2 (insert k e m);
  pop = remove;
  clear = λ m. [];
  peek-promote = λ j k m. refl;
  peek-put-self = get-first;
  peek-put-other = λ j k e f m h. old_or_new j k e f m (get-take 2 j f (insert k e m) h);
  peek-pop = λ j k f m h. still_there j k f m h;
  peek-clear = λ j m. get-nil j;
}
