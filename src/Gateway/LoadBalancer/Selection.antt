-- ===== src/Gateway/LoadBalancer/Selection.antt =====
-- Every strategy picks one of the upstreams; least-connections picks one with the fewest, and
-- round-robin goes through them in turn.
use native.Mathlib.Nat.{
  add-zero, add-mod-mod, add-mul-mod_self_right, mod-eq_of_lt, mod-lt, div-add-mod',
}
use xira_net.Common.{
  ℕ, zero, suc, ◌+◌, ◌-◌, ◌*◌, ◌/◌, ◌%◌, ◌≤◌, ◌<◌, ◌≡◌, refl, ap, ◌∙◌, ◌≢◌, ◌⊎◌, inl, inr, some,
  List, [], ◌∷◌, arith, get, get-insert, Text, ==_refl, length, get_elem?, get_or, In, All, u64_max,
  add64, nat_eq, text_eq,
}
use xira_net.Gateway.LoadBalancer.{
  LoadBalanceStrategy, round_robin, random, least_connections, LoadBalancer, or_zero, conn_count,
  least_from, select_upstream,
}

get_or-In : (d : Text) (us : List Text) (i : ℕ) → i < length us → In (get_or us i d) us
get_or-In d [] i h = absurd (omega arith)
get_or-In d (u ∷ us) zero h = inl refl
get_or-In d (u ∷ us) (suc i) h = inr (get_or-In d us i (omega arith))

least_from-In :
    (lb : LoadBalancer) (n : ℕ) (selected : Text) (us : List Text)
    → (least_from lb n selected us ≡ selected) ⊎ In (least_from lb n selected us) us
unfolding least_from
least_from-In lb n selected [] = inl refl
least_from-In lb n selected (u ∷ us) =
    grind (arith, least_from-In lb n selected us, least_from-In lb (conn_count lb u) u us)

-- A service with upstreams is always sent to one of them, by every strategy.
pub select_upstream-In :
    (lb : LoadBalancer) (hash id : ℕ) (us : List Text) (strategy : LoadBalanceStrategy)
    → us ≢ []
    → In (select_upstream lb hash id us strategy).1 us
unfolding select_upstream
select_upstream-In lb hash id [] strategy h = absurd (h refl)
select_upstream-In lb hash id (u ∷ []) strategy h = inl refl
select_upstream-In lb hash id (u ∷ v ∷ us) round_robin h =
    get_or-In [] (u ∷ v ∷ us) (or_zero (get id lb.counters) % length (u ∷ v ∷ us)) (omega arith)
select_upstream-In lb hash id (u ∷ v ∷ us) random h =
    get_or-In [] (u ∷ v ∷ us) (hash % length (u ∷ v ∷ us)) (omega arith)
select_upstream-In lb hash id (u ∷ v ∷ us) least_connections h =
    grind (arith, least_from-In lb u64_max u (u ∷ v ∷ us))

abbrev pub AtLeast : LoadBalancer → ℕ → Text → Type 0
AtLeast lb n u = n ≤ conn_count lb u

least_from-AtLeast :
    (lb : LoadBalancer) (n : ℕ) (selected : Text) (us : List Text)
    → conn_count lb selected ≤ n
    → All (AtLeast lb (conn_count lb (least_from lb n selected us))) us
      × (conn_count lb (least_from lb n selected us) ≤ n)
unfolding least_from
least_from-AtLeast lb n selected [] h = (tt, h)
least_from-AtLeast lb n selected (u ∷ us) h =
    ground
      (arith, least_from-AtLeast lb n selected us, least_from-AtLeast lb (conn_count lb u) u us)

-- The least-connections strategy picks an upstream to which no other has fewer open connections
-- and changes no counter, as long as the count of the first one is a number of 64 bits.
pub select_upstream-AtLeast :
    (lb : LoadBalancer) (hash id : ℕ) (u : Text) (us : List Text)
    → conn_count lb u ≤ u64_max
    → let (lb', selected) = select_upstream lb hash id (u ∷ us) least_connections in
      All (AtLeast lb (conn_count lb selected)) (u ∷ us) × (lb' ≡ lb)
unfolding select_upstream
select_upstream-AtLeast lb hash id u [] h = ((omega arith, tt), refl)
select_upstream-AtLeast lb hash id u (v ∷ us) h =
    ((least_from-AtLeast lb u64_max u (u ∷ v ∷ us) h).0, refl)

abbrev pub counter_of : LoadBalancer → ℕ → ℕ
counter_of lb id = or_zero (get id lb.counters)

-- What the next `n` requests of one service get under round-robin.
unfoldable pub picks : LoadBalancer → ℕ → List Text → ℕ → List Text
picks lb id us zero = []
picks lb id us (suc n) =
    let (lb', u) = select_upstream lb 0 id us round_robin in u ∷ picks lb' id us n

pub expected : ℕ → List Text → ℕ → List Text
expected c us zero = []
expected c us (suc n) = get_or us (c % length us) [] ∷ expected (c + 1) us n

picks_by_counter :
    (lb : LoadBalancer) (id c n : ℕ) (u v : Text) (us : List Text)
    → counter_of lb id ≡ c
    → c + n < 18446744073709551616
    → picks lb id (u ∷ v ∷ us) n ≡ expected c (u ∷ v ∷ us) n
unfolding picks expected select_upstream
picks_by_counter lb id c zero u v us e h = refl
picks_by_counter lb id c (suc n) u v us e h = ground (
  arith,
  ==_refl id,
  get-insert id id (add64 (or_zero (get id lb.counters)) 1) lb.counters,
  picks_by_counter (select_upstream lb 0 id (u ∷ v ∷ us) round_robin).0 id (c + 1) n u v us,
)

get_elem?-expected :
    (c : ℕ) (us : List Text) (n i : ℕ)
    → i < n
    → get_elem? (expected c us n) i ≡ some (get_or us ((c + i) % length us) [])
unfolding expected
get_elem?-expected c us zero i h = absurd (omega arith)
get_elem?-expected c us (suc n) zero h = rw add-zero
get_elem?-expected c us (suc n) (suc i) h =
    get_elem?-expected (c + 1) us n i (omega arith)
    ∙ let e : c + 1 + i ≡ c + suc i = omega arith in rw e

-- The turn at which index `j` comes, from the counter `c` on.
abbrev pub turn : ℕ → ℕ → ℕ → ℕ
turn c len j = (j + len - c % len) % len

turn_lem : (c len j : ℕ) → j < len → (c + turn c len j) % len ≡ j
turn_lem c len j h =
    add-mod-mod c (j + len - c % len) len
    ∙ ap (λ (t : ℕ). t % len) regroup
    ∙ add-mul-mod_self_right j (c / len + 1) len
    ∙ mod-eq_of_lt h
  where
    regroup : c + (j + len - c % len) ≡ j + (c / len + 1) * len
    regroup = grind (arith, div-add-mod' c len, mod-lt c)

-- Round-robin among two or more upstreams gives every upstream one of as many requests as there
-- are upstreams, at its turn, whatever the counter was, unless the counter wraps at 2^64 on the
-- way.
pub picks_fair :
    (lb : LoadBalancer) (id j : ℕ) (u v : Text) (us : List Text)
    → let all = u ∷ v ∷ us in
      counter_of lb id + length all < 18446744073709551616
      → j < length all
      → (turn (counter_of lb id) (length all) j < length all)
        × (get_elem? (picks lb id all (length all)) (turn (counter_of lb id) (length all) j)
            ≡ some (get_or all j []))
picks_fair lb id j u v us h l = (
  omega arith,
  rw (picks_by_counter lb id (counter_of lb id) (length (u ∷ v ∷ us)) u v us refl h) (
      get_elem?-expected (counter_of lb id) (u ∷ v ∷ us) (length (u ∷ v ∷ us))
        (turn (counter_of lb id) (length (u ∷ v ∷ us)) j) (omega arith)
      ∙ ap (λ i. some (get_or (u ∷ v ∷ us) i []))
          (turn_lem (counter_of lb id) (length (u ∷ v ∷ us)) j l)),
)
