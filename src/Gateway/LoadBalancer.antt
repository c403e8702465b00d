-- ===== src/Gateway/LoadBalancer.antt =====
-- src/gateway/load_balancer.rs: which upstream of a service a request goes to. Counters are atomics,
-- so each operation is one step, and a counter wraps at 64 bits. The hash from which the source takes
-- a random index is an argument.
pub mod Selection
pub mod Connections
mod Tests
use xira_net.Common.{
  ℕ, ◌-◌, ◌%◌, ◌||◌, Option, none, some, List, [], ◌∷◌, Dict, get, insert, Text, codes,
  to_ascii_lowercase, ◌==◌, length, get_or, u64_max, add64, ltb, if◌then◌else◌, nat_eq, text_eq,
}

pub data LoadBalanceStrategy : Type 0 where
  round_robin random least_connections : LoadBalanceStrategy

-- Lower-casing is that of ASCII: no other character lower-cases into these names.
unfoldable pub from_str : Text → LoadBalanceStrategy
from_str s =
    let name = to_ascii_lowercase s in
    if name == codes "random"
    then random
    else if name == codes "least-connections" || name == codes "least_connections"
    then least_connections
    else round_robin

pub record LoadBalancer : Type 0 where
  pub counters : Dict ℕ ℕ
  pub connections : Dict Text ℕ

unfoldable pub new : LoadBalancer
new = record { counters = []; connections = [] }

abbrev pub or_zero : Option ℕ → ℕ
or_zero none = 0
or_zero (some n) = n

-- `self.connections.get(upstream)`, 0 where there is none.
unfoldable pub conn_count : LoadBalancer → Text → ℕ
conn_count lb upstream = or_zero (get upstream lb.connections)

-- The loop of the least-connections strategy.
unfoldable pub least_from : LoadBalancer → ℕ → Text → List Text → Text
least_from lb min_connections selected [] = selected
least_from lb min_connections selected (u ∷ us) =
    let better = least_from lb (conn_count lb u) u us in
    let same = least_from lb min_connections selected us in
    if ltb (conn_count lb u) min_connections then better else same

-- The strategies, for two upstreams or more.
unfoldable pub select_by :
    LoadBalanceStrategy → LoadBalancer → ℕ → ℕ → Text → List Text → LoadBalancer × Text
select_by round_robin lb hash id first us =
    let counter = or_zero (get id lb.counters) in
    (
      record lb { counters = insert id (add64 counter 1) lb.counters },
      get_or (first ∷ us) (counter % length (first ∷ us)) [],
    )
select_by random lb hash id first us = (lb, get_or (first ∷ us) (hash % length (first ∷ us)) [])
select_by least_connections lb hash id first us = (lb, least_from lb u64_max first (first ∷ us))

unfoldable pub select_upstream :
    LoadBalancer → ℕ → ℕ → List Text → LoadBalanceStrategy → LoadBalancer × Text
unfolding select_by
select_upstream lb hash id [] strategy = (lb, [])
select_upstream lb hash id (u ∷ []) strategy = (lb, u)
select_upstream lb hash id (u ∷ v ∷ us) strategy = select_by strategy lb hash id u (v ∷ us)

unfoldable pub acquire_connection : LoadBalancer → Text → LoadBalancer
acquire_connection lb upstream = record lb {
  connections = insert upstream (add64 (or_zero (get upstream lb.connections)) 1) lb.connections;
}

-- A counter at 0 stays there, and an upstream with no counter gets none.
unfoldable pub release_connection : LoadBalancer → Text → LoadBalancer
release_connection lb upstream = elim (get upstream lb.connections) [
  | none ↦ lb
  | some prev ↦
      if ltb 0 prev
      then record lb { connections = insert upstream (prev - 1) lb.connections }
      else lb
]
