-- ===== src/Gateway/LoadBalancer/Connections.antt =====
-- The counters of open connections.
use xira_net.Common.{
  ℕ, ◌+◌, ◌-◌, ◌<◌, ◌≡◌, refl, inl, inr, List, [], ◌∷◌, arith, get, get-insert, Text, ◌==◌,
  list_eqb_iff, length, add64, if◌then◌else◌, Option-cases, nat_eq, text_eq,
}
use xira_net.Gateway.LoadBalancer.{
  LoadBalancer, or_zero, conn_count, acquire_connection, release_connection,
}

pub conn_count-acquire :
    (lb : LoadBalancer) (u v : Text)
    → conn_count (acquire_connection lb u) v
      ≡ (if u == v then add64 (conn_count lb u) 1 else conn_count lb v)
unfolding conn_count acquire_connection
conn_count-acquire lb u v =
    ground (arith, get-insert u v (add64 (or_zero (get u lb.connections)) 1) lb.connections)

pub conn_count-release :
    (lb : LoadBalancer) (u v : Text)
    → conn_count (release_connection lb u) v
      ≡ (if u == v then conn_count lb u - 1 else conn_count lb v)
unfolding conn_count release_connection
conn_count-release lb u v = elim (Option-cases (get u lb.connections)) [
  | inl e ↦ ground (arith, list_eqb_iff u v)
  | inr (prev, e) ↦ ground (arith, list_eqb_iff u v, get-insert u v (prev - 1) lb.connections)
]

-- Requests that open and close connections, in any interleaving; a request is named by its upstream.
pub data Change : Type 0 where
  acquires releases : Text → Change

pub change : LoadBalancer → Change → LoadBalancer
change lb (acquires u) = acquire_connection lb u
change lb (releases u) = release_connection lb u

pub run : LoadBalancer → List Change → LoadBalancer
run lb [] = lb
run lb (c ∷ cs) = run (change lb c) cs

-- What the counter of `u` should be after these changes, from `n` on.
abbrev pub count_from : Text → ℕ → List Change → ℕ
count_from u n [] = n
count_from u n (acquires v ∷ cs) = count_from u (if v == u then n + 1 else n) cs
count_from u n (releases v ∷ cs) = count_from u (if v == u then n - 1 else n) cs

-- The counter of an upstream follows its own openings and closings alone, never goes below 0,
-- and does not wrap while it and the number of changes together stay below 2^64.
pub conn_count-run :
    (lb : LoadBalancer) (u : Text) (cs : List Change)
    → conn_count lb u + length cs < 18446744073709551616
    → conn_count (run lb cs) u ≡ count_from u (conn_count lb u) cs
unfolding run change
conn_count-run lb u [] h = refl
conn_count-run lb u (acquires v ∷ cs) h = ground (
  arith,
  list_eqb_iff v u,
  conn_count-acquire lb v u,
  conn_count-run (acquire_connection lb v) u cs,
)
conn_count-run lb u (releases v ∷ cs) h = ground (
  arith,
  list_eqb_iff v u,
  conn_count-release lb v u,
  conn_count-run (release_connection lb v) u cs,
)
