-- ===== src/Middleware/RateLimit/Window.antt =====
-- How many requests a bucket lets through, and that eviction is never noticed.
use xira_net.Common.{
  ℕ, ◌+◌, ◌-◌, ◌*◌, ◌≤◌, ◌<◌, min, max, ◌≡◌, refl, sym, ap, ◌∙◌, ◌↔◌, ◌⊎◌, inl, inr, true, Option,
  none, some, List, [], ◌∷◌, arith, get, get-insert, keep, Distinct, get-retain_values, Text, ◌==◌,
  ==_refl, list_eqb_iff, length, All, ltb, if◌then◌else◌, Bool-cases, text_eq,
}
use xira_net.Middleware.RateLimit.{
  RateLimitEntry, Inner, Verdict, passes, limited, nanos, roll, count_in, count_request, call,
  evict, or_new,
}

abbrev pub passed_one : Verdict → ℕ
passed_one passes = 1
passed_one (limited _) = 0

-- How many of the requests at these times pass.
pub passed : ℕ → ℕ → RateLimitEntry → List ℕ → ℕ
passed most window e [] = 0
passed most window e (now ∷ times) =
    let (e', verdict) = count_request most window now e in
    passed_one verdict + passed most window e' times

roll_kept :
    (window now : ℕ) (e : RateLimitEntry) → now ≤ e.window_start + window → roll window now e ≡ e
unfolding roll
roll_kept window now e h = ground arith

roll-cases :
    (window now : ℕ) (e : RateLimitEntry)
    → (roll window now e ≡ e) ⊎ (roll window now e ≡ record { count = 0; window_start = now })
unfolding roll
roll-cases window now e = elim (Bool-cases (ltb window (now - e.window_start))) [
  | inl over ↦ inr (rw over)
  | inr lasts ↦ inl (rw lasts)
]

count_in_lem :
    (most window now : ℕ) (e : RateLimitEntry)
    → e.count + 1 < 4294967296
    → ((count_in most window now e).0
        ≡ record { count = e.count + 1; window_start = e.window_start })
      × (passed_one (count_in most window now e).1 ≡ (if ltb e.count most then 1 else 0))
unfolding count_in
count_in_lem most window now e h = ground arith

-- While a window lasts, of the requests in it exactly the first most - count pass, count being
-- what the bucket held before, as long as count and the number of requests together stay below
-- 2^32.
pub passed_window :
    (most window : ℕ) (e : RateLimitEntry) (times : List ℕ)
    → All (λ now. now ≤ e.window_start + window) times
    → e.count + length times < 4294967296
    → passed most window e times ≡ min (length times) (most - e.count)
unfolding passed count_request
passed_window most window e [] h s = omega arith
passed_window most window e (now ∷ times) (h, hs) s =
    let (next, one) = count_in_lem most window now e (omega arith) in
    rw (roll_kept window now e h, next, one)
      (ground (
        arith,
        passed_window most window (record { count = e.count + 1; window_start = e.window_start })
            times hs (omega arith),
      ))

ends_in_time :
    (from window now : ℕ) (times : List ℕ)
    → from ≤ now
    → All (λ t. (from ≤ t) × (t ≤ from + window)) times
    → All (λ t. t ≤ now + window) times
ends_in_time from window now [] l h = tt
ends_in_time from window now (t ∷ times) l (h, hs) =
    (omega arith, ends_in_time from window now times l hs)

-- In any stretch of time no longer than the window at most (most - count) + most requests of
-- one client pass, count being what its bucket held before, as long as count and the number of
-- requests together stay below 2^32.
pub passed-le-double :
    (most window from : ℕ) (e : RateLimitEntry) (times : List ℕ)
    → All (λ now. (from ≤ now) × (now ≤ from + window)) times
    → e.count + length times < 4294967296
    → passed most window e times ≤ (most - e.count) + most
unfolding passed count_request
passed-le-double most window from e [] h s = omega arith
passed-le-double most window from e (now ∷ times) (h, hs) s = elim (roll-cases window now e) [
  | inl kept ↦
      let (next, one) = count_in_lem most window now e (omega arith) in
      rw (kept, next, one)
        (ground (
          arith,
          passed-le-double most window from
              (record { count = e.count + 1; window_start = e.window_start }) times hs
              (omega arith),
        ))
  | inr reset ↦
      let fresh : RateLimitEntry = record { count = 0; window_start = now } in
      let (next, one) = count_in_lem most window now fresh (omega arith) in
      rw (reset, next, one)
        (ground (
          arith,
          passed_window most window (record { count = 1; window_start = now }) times
              (ends_in_time from window now times h.0 hs) (omega arith),
        ))
]

-- A bucket that the evictor drops would start a new window at the next request in any case.
roll-keep :
    (window_secs now later : ℕ) (o : Option RateLimitEntry)
    → 1 ≤ window_secs
    → now ≤ later
    → roll
        (nanos window_secs)
        later
        (or_new later (keep (λ e. ltb (now - e.window_start) (nanos (window_secs * 2))) o))
      ≡ roll (nanos window_secs) later (or_new later o)
unfolding roll
roll-keep window_secs now later none h l = refl
roll-keep window_secs now later (some e) h l = ground arith

call_lem :
    (r : Inner) (now : ℕ) (ip : Text)
    → let e = roll (nanos (max r.window_secs 1)) now (or_new now (get ip r.limits)) in
      let counted = count_in (max r.max_requests 1) (nanos (max r.window_secs 1)) now e in
      ((call r now ip).1 ≡ counted.1) × (get ip (call r now ip).0.limits ≡ some counted.0)
unfolding call count_request
call_lem r now ip = (refl, get-insert ip ip _ r.limits ∙ rw (==_refl ip))

-- In a map whose keys are distinct, after a round of the evictor at the time of the call or
-- before, a client gets the same verdict and its bucket is left the same as without it.
pub call-evict :
    (r : Inner) (now later : ℕ) (ip : Text)
    → Distinct r.limits
    → now ≤ later
    → ((call (evict r now) later ip).1 ≡ (call r later ip).1)
      × (get ip (call (evict r now) later ip).0.limits ≡ get ip (call r later ip).0.limits)
unfolding evict
call-evict r now later ip d l =
    let (verdict, bucket) = call_lem r later ip in
    let (verdict', bucket') = call_lem (evict r now) later ip in
    let same =
      get-retain_values (λ e. ltb (now - e.window_start) (nanos (max r.window_secs 1 * 2))) ip
        r.limits d in
    let rolled = roll-keep (max r.window_secs 1) now later (get ip r.limits) (omega arith) l in
    (verdict' ∙ rw (same, rolled) (sym verdict), bucket' ∙ rw (same, rolled) (sym bucket))

pub serve : Inner → List (ℕ × Text) → Inner
serve r [] = r
serve r ((now, ip) ∷ calls) = serve (call r now ip).0 calls

-- The bucket of one client after its own requests among these.
pub own_bucket : ℕ → ℕ → Text → Option RateLimitEntry → List (ℕ × Text) → Option RateLimitEntry
own_bucket most window ip o [] = o
own_bucket most window ip o ((now, other) ∷ calls) =
    own_bucket most window ip
      (if other == ip then some (count_request most window now (or_new now o)).0 else o) calls

-- The bucket of one client is what its own requests, in their order, make of it, whatever other
-- clients do.
pub serve-own_bucket :
    (r : Inner) (ip : Text) (calls : List (ℕ × Text))
    → get ip (serve r calls).limits
      ≡ own_bucket (max r.max_requests 1) (nanos (max r.window_secs 1)) ip (get ip r.limits) calls
unfolding serve own_bucket call
serve-own_bucket r ip [] = refl
serve-own_bucket r ip ((now, other) ∷ calls) =
    serve-own_bucket (call r now other).0 ip calls
    ∙ ap (λ o. own_bucket (max r.max_requests 1) (nanos (max r.window_secs 1)) ip o calls)
        (get-insert other ip _ r.limits ∙ same_bucket (list_eqb_iff other ip))
  where
    same_bucket :
        ((other == ip) ≡ true) ↔ (other ≡ ip)
        → (if other == ip
            then some
                (count_request
                  (max r.max_requests 1)
                  (nanos (max r.window_secs 1))
                  now
                  (or_new now (get other r.limits))).0
            else get ip r.limits)
          ≡ (if other == ip
              then some
                  (count_request
                    (max r.max_requests 1)
                    (nanos (max r.window_secs 1))
                    now
                    (or_new now (get ip r.limits))).0
              else get ip r.limits)
    same_bucket iff = ground arith
